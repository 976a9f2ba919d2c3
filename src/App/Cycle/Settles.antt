-- ===== src/App/Cycle/Settles.antt =====
-- Where a cycle leaves the state machine, by the answers of the hooks.
use esp32s3_inmp.Base.{◌≡◌, refl, ◌⊎◌, arith, u32, ◌+◌}
use esp32s3_inmp.Power.{WakeCause, unknown, PowerBackend, power_wake_cause}
use esp32s3_inmp.Fsm.{
  State, confirm_kws, connect, stream, sleep, error, Event, woke, kws_confirmed, kws_rejected,
  connected, connect_failed, server_closed, session_timeout, failure, Action, no_action, start_kws,
  start_connect, start_stream, enter_sleep, Fsm, fsm_dispatch,
}
use esp32s3_inmp.Fsm.Graph.{IsIdle, idle_boot, idle_sleep, idle_error}
use esp32s3_inmp.App.{
  AppHooks, App, call_hook, kws_step, connect_step, stream_step, end_cycle, wake,
}
use esp32s3_inmp.App.Cycle.{after_stream, after_connect, mission, cycle_result}

-- The events that each hook may answer with: those that its state waits for, or a hard error.
abbrev pub KwsAnswer : Event → Type 0
KwsAnswer ev = (ev ≡ kws_confirmed) ⊎ (ev ≡ kws_rejected) ⊎ (ev ≡ failure)

abbrev pub ConnectAnswer : Event → Type 0
ConnectAnswer ev = (ev ≡ connected) ⊎ (ev ≡ connect_failed) ⊎ (ev ≡ failure)

abbrev pub StreamAnswer : Event → Type 0
StreamAnswer ev = (ev ≡ server_closed) ⊎ (ev ≡ session_timeout) ⊎ (ev ≡ failure)

-- The answers of the hooks, the fallback of a missing hook included.
pub record Answers {U : Type 0} (hooks : AppHooks U) : Type 0 where
  pub kws : (u : U) → KwsAnswer (call_hook hooks.run_kws u kws_rejected).0
  pub connects : (u : U) → ConnectAnswer (call_hook hooks.connect u connect_failed).0
  pub streams : (u : U) → StreamAnswer (call_hook hooks.stream u session_timeout).0

abbrev pub Asleep : State → Type 0
Asleep s = (s ≡ sleep) ⊎ (s ≡ error)

-- What a dispatch of an expected answer leads to.
abbrev Next : Action → State → Type 0
Next start_kws s = s ≡ confirm_kws
Next start_connect s = s ≡ connect
Next start_stream s = s ≡ stream
Next enter_sleep s = Asleep s
Next no_action s = Asleep s

woke-Next :
    (f : Fsm) (c : WakeCause)
    → IsIdle f.state
    → Next (fsm_dispatch f woke c).0 (fsm_dispatch f woke c).1.state
unfolding fsm_dispatch
woke-Next f c h = go f.state refl h
  where
    go :
        (s : State)
        → f.state ≡ s
        → IsIdle s
        → Next (fsm_dispatch f woke c).0 (fsm_dispatch f woke c).1.state
    go _ e idle_boot = ground arith
    go _ e idle_sleep = ground arith
    go _ e idle_error = ground arith

kws-Next :
    (f : Fsm) (ev : Event)
    → f.state ≡ confirm_kws
    → KwsAnswer ev
    → ((fsm_dispatch f ev unknown).0 ≡ start_connect)
        × ((fsm_dispatch f ev unknown).1.state ≡ connect)
      ⊎ ((fsm_dispatch f ev unknown).0 ≡ enter_sleep) × Asleep (fsm_dispatch f ev unknown).1.state
unfolding fsm_dispatch
kws-Next f ev h a = ground arith

connect-Next :
    (f : Fsm) (ev : Event)
    → f.state ≡ connect
    → ConnectAnswer ev
    → ((fsm_dispatch f ev unknown).0 ≡ start_stream)
        × ((fsm_dispatch f ev unknown).1.state ≡ stream)
      ⊎ ((fsm_dispatch f ev unknown).0 ≡ enter_sleep) × Asleep (fsm_dispatch f ev unknown).1.state
unfolding fsm_dispatch
connect-Next f ev h a = ground arith

stream-Next :
    (f : Fsm) (ev : Event)
    → f.state ≡ stream
    → StreamAnswer ev
    → Asleep (fsm_dispatch f ev unknown).1.state
unfolding fsm_dispatch
stream-Next f ev h a = ground arith

abbrev pub IsWaiting : State → Type 0
IsWaiting s = (s ≡ confirm_kws) ⊎ (s ≡ connect) ⊎ (s ≡ stream)

waiting_ignores :
    (f : Fsm) (c : WakeCause) → IsWaiting f.state → fsm_dispatch f woke c ≡ (no_action, f)
unfolding fsm_dispatch
waiting_ignores f c h = ground arith

module _ {C U : Type 0} (backend : PowerBackend C) (hooks : AppHooks U) where
  state-end_cycle : (a : App C U) → (end_cycle backend hooks a).fsm ≡ a.fsm
  unfolding end_cycle
  state-end_cycle a = refl

  stream-Asleep :
      (a : App C U)
      → Answers hooks
      → a.fsm.state ≡ stream
      → Asleep (after_stream backend hooks start_stream a).fsm.state
  unfolding after_stream stream_step end_cycle
  stream-Asleep a k h = stream-Next a.fsm _ h (k.streams a.user)

  connect-Asleep :
      (a : App C U)
      → Answers hooks
      → a.fsm.state ≡ connect
      → Asleep (after_connect backend hooks start_connect a).fsm.state
  unfolding after_connect connect_step end_cycle after_stream
  connect-Asleep a k h = ground (
    arith,
    connect-Next a.fsm (call_hook hooks.connect a.user connect_failed).0 h (k.connects a.user),
    stream-Asleep (connect_step backend hooks a).1 k,
  )

  kws-Asleep :
      (a : App C U)
      → Answers hooks
      → a.fsm.state ≡ confirm_kws
      → Asleep (mission backend hooks start_kws a).fsm.state
  unfolding mission kws_step end_cycle after_connect after_stream
  kws-Asleep a k h = ground (
    arith,
    kws-Next a.fsm (call_hook hooks.run_kws a.user kws_rejected).0 h (k.kws a.user),
    connect-Asleep (kws_step backend hooks a).1 k,
  )

  mission-Asleep :
      (act : Action) (a : App C U)
      → Answers hooks
      → Next act a.fsm.state
      → Asleep (mission backend hooks act a).fsm.state
  unfolding mission after_connect after_stream end_cycle
  mission-Asleep start_kws a k h = kws-Asleep a k h
  mission-Asleep start_connect a k h = connect-Asleep a k h
  mission-Asleep start_stream a k h = stream-Asleep a k h
  mission-Asleep enter_sleep a k h = h
  mission-Asleep no_action a k h = h

  pub cycle_result-Asleep :
      (a : App C U)
      → Answers hooks
      → IsIdle a.fsm.state
      → Asleep (cycle_result backend hooks a).fsm.state
  unfolding cycle_result wake
  cycle_result-Asleep a k h = mission-Asleep _ _ k (woke-Next a.fsm _ h)

  pub cycle_result_stuck :
      (a : App C U)
      → IsWaiting a.fsm.state
      → ((cycle_result backend hooks a).fsm ≡ a.fsm)
        × ((cycle_result backend hooks a).user ≡ a.user)
        × ((cycle_result backend hooks a).cycles ≡ u32 (a.cycles + 1))
  unfolding cycle_result wake mission after_connect after_stream end_cycle
  cycle_result_stuck a h =
      ground (arith, waiting_ignores a.fsm (power_wake_cause backend a.power).0 h)
