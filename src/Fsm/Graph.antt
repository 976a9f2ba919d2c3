-- ===== src/Fsm/Graph.antt =====
-- The transition diagram of the state machine, and what its counters mean.
use esp32s3_inmp.Base.{◌≡◌, ◌⊎◌, arith}
use esp32s3_inmp.Power.{WakeCause, power_on, sound_trigger, button, unknown, timer}
use esp32s3_inmp.Fsm.{
  State, boot, confirm_kws, connect, stream, sleep, error, Event, woke, kws_confirmed, kws_rejected,
  connected, connect_failed, server_closed, session_timeout, failure, Action, no_action, start_kws,
  start_connect, start_stream, enter_sleep, Fsm, fsm_dispatch,
}

-- Where a wake-up may start: `BOOT`, `SLEEP` and `ERROR`.
pub data IsIdle : State → Type 0 where
  idle_boot : IsIdle boot
  idle_sleep : IsIdle sleep
  idle_error : IsIdle error

-- The diagram of fsm.h, each edge with the event that takes it and the action that it returns.
pub data Edge : State → Event → WakeCause → Action → State → Type 0 where
  hear : {s : State} → IsIdle s → Edge s woke sound_trigger start_kws confirm_kws
  cold : {s : State} → IsIdle s → Edge s woke power_on start_kws confirm_kws
  press : {s : State} → IsIdle s → Edge s woke button start_connect connect
  tick : {s : State} → IsIdle s → Edge s woke timer enter_sleep sleep
  spurious : {s : State} → IsIdle s → Edge s woke unknown enter_sleep sleep
  confirm : {c : WakeCause} → Edge confirm_kws kws_confirmed c start_connect connect
  reject : {c : WakeCause} → Edge confirm_kws kws_rejected c enter_sleep sleep
  join : {c : WakeCause} → Edge connect connected c start_stream stream
  no_join : {c : WakeCause} → Edge connect connect_failed c enter_sleep error
  cut : {c : WakeCause} → Edge stream server_closed c enter_sleep sleep
  expire : {c : WakeCause} → Edge stream session_timeout c enter_sleep sleep
  fault : {s : State} {c : WakeCause} → Edge s failure c enter_sleep error

pub ruleset edges = (
  hear, cold, press, tick, spurious, confirm, reject, join, no_join, cut, expire, fault, idle_boot,
  idle_sleep, idle_error,
)

-- Every dispatch either follows an edge of the diagram, with the action of that edge, or returns no
-- action and leaves the whole record as it was.
pub fsm_dispatch-Edge :
    (f : Fsm) (ev : Event) (c : WakeCause)
    → (Edge f.state ev c (fsm_dispatch f ev c).0 (fsm_dispatch f ev c).1.state)
      ⊎ (((fsm_dispatch f ev c).0 ≡ no_action) × ((fsm_dispatch f ev c).1 ≡ f))
unfolding fsm_dispatch
fsm_dispatch-Edge f ev c = grind (arith, edges)

-- Every edge of the diagram is taken: in its state, its event returns its action and leads to its
-- target. So the diagram leaves no choice.
pub Edge-fsm_dispatch :
    (f : Fsm) {ev : Event} {c : WakeCause} {act : Action} {s t : State}
    → Edge s ev c act t
    → f.state ≡ s
    → ((fsm_dispatch f ev c).0 ≡ act) × ((fsm_dispatch f ev c).1.state ≡ t)
unfolding fsm_dispatch
Edge-fsm_dispatch f (hear idle_boot) h = ground arith
Edge-fsm_dispatch f (hear idle_sleep) h = ground arith
Edge-fsm_dispatch f (hear idle_error) h = ground arith
Edge-fsm_dispatch f (cold idle_boot) h = ground arith
Edge-fsm_dispatch f (cold idle_sleep) h = ground arith
Edge-fsm_dispatch f (cold idle_error) h = ground arith
Edge-fsm_dispatch f (press idle_boot) h = ground arith
Edge-fsm_dispatch f (press idle_sleep) h = ground arith
Edge-fsm_dispatch f (press idle_error) h = ground arith
Edge-fsm_dispatch f (tick idle_boot) h = ground arith
Edge-fsm_dispatch f (tick idle_sleep) h = ground arith
Edge-fsm_dispatch f (tick idle_error) h = ground arith
Edge-fsm_dispatch f (spurious idle_boot) h = ground arith
Edge-fsm_dispatch f (spurious idle_sleep) h = ground arith
Edge-fsm_dispatch f (spurious idle_error) h = ground arith
Edge-fsm_dispatch f confirm h = ground arith
Edge-fsm_dispatch f reject h = ground arith
Edge-fsm_dispatch f join h = ground arith
Edge-fsm_dispatch f no_join h = ground arith
Edge-fsm_dispatch f cut h = ground arith
Edge-fsm_dispatch f expire h = ground arith
Edge-fsm_dispatch f fault h = ground arith
