-- ===== src/App/Cycle/Books.antt =====
-- What a cycle leaves behind: where the machine stands, what the counters say, and how many cycles
-- `app_run` makes.
use esp32s3_inmp.Base.{◌+◌, ◌≡◌, ◌≢◌, u32, arith, if◌then◌else◌}
use esp32s3_inmp.Power.{
  WakeCause, unknown, stay_awake, PowerBackend, power_wake_cause, power_note_false_wake,
}
use esp32s3_inmp.Power.Keeps.{Keeps, power_wake_cause-Same, power_enter_deep_sleep-slept}
use esp32s3_inmp.Fsm.{
  confirm_kws, connect, stream, Event, woke, kws_rejected, connect_failed, session_timeout, Action,
  no_action, start_kws, start_connect, start_stream, enter_sleep, Fsm, fsm_dispatch,
}
use esp32s3_inmp.App.{
  AppHooks, App, is_rejected, call_hook, kws_step, connect_step, stream_step, end_cycle, wake,
}
use esp32s3_inmp.App.Cycle.{
  Fits, after_stream, after_connect, mission, wake-Fits, cycle_result, kws_step-Fits,
  connect_step-Fits,
}

-- The books of the application agree: a wake-up that the wake-word check rejects is counted by the
-- machine and by the power controller, and outside STAY_AWAKE each cycle is one sleep.
pub record Books {C U : Type 0} (a : App C U) : Type 0 where
  pub rejects : a.fsm.reject_count ≡ a.power.false_wake_count
  pub sleeps : a.power.mode ≢ stay_awake → a.power.sleep_count ≡ a.cycles

-- The rejections that one dispatch adds.
woke-rejects : (f : Fsm) (c : WakeCause) → (fsm_dispatch f woke c).1.reject_count ≡ f.reject_count
unfolding fsm_dispatch
woke-rejects f c = ground arith

kws-rejects :
    (f : Fsm) (ev : Event)
    → f.state ≡ confirm_kws
    → (fsm_dispatch f ev unknown).1.reject_count
      ≡ (if is_rejected ev then u32 (f.reject_count + 1) else f.reject_count)
unfolding fsm_dispatch
kws-rejects f ev h = ground arith

connect-rejects :
    (f : Fsm) (ev : Event)
    → f.state ≡ connect
    → (fsm_dispatch f ev unknown).1.reject_count ≡ f.reject_count
unfolding fsm_dispatch
connect-rejects f ev h = ground arith

stream-rejects :
    (f : Fsm) (ev : Event)
    → f.state ≡ stream
    → (fsm_dispatch f ev unknown).1.reject_count ≡ f.reject_count
unfolding fsm_dispatch
stream-rejects f ev h = ground arith

module _ {C U : Type 0} (backend : PowerBackend C) (hooks : AppHooks U) (k : Keeps backend) where
  end_cycle-Books : (a : App C U) → Books a → Books (end_cycle backend hooks a)
  unfolding end_cycle
  end_cycle-Books a b = ground (arith, power_enter_deep_sleep-slept backend a.power k)

  kws_step-Books :
      (a : App C U) → a.fsm.state ≡ confirm_kws → Books a → Books (kws_step backend hooks a).1
  unfolding kws_step power_note_false_wake
  kws_step-Books a h b =
      ground (arith, kws-rejects a.fsm (call_hook hooks.run_kws a.user kws_rejected).0 h)

  connect_step-Books :
      (a : App C U) → a.fsm.state ≡ connect → Books a → Books (connect_step backend hooks a).1
  unfolding connect_step
  connect_step-Books a h b =
      ground (arith, connect-rejects a.fsm (call_hook hooks.connect a.user connect_failed).0 h)

  stream_step-Books :
      (a : App C U) → a.fsm.state ≡ stream → Books a → Books (stream_step backend hooks a).1
  unfolding stream_step
  stream_step-Books a h b =
      ground (arith, stream-rejects a.fsm (call_hook hooks.stream a.user session_timeout).0 h)

  after_stream-Books :
      (act : Action) (a : App C U)
      → Fits act a.fsm.state
      → Books a
      → Books (after_stream backend hooks act a)
  unfolding after_stream
  after_stream-Books start_stream a fit b = end_cycle-Books _ (stream_step-Books a fit b)
  after_stream-Books _ a fit b = end_cycle-Books a b

  after_connect-Books :
      (act : Action) (a : App C U)
      → Fits act a.fsm.state
      → Books a
      → Books (after_connect backend hooks act a)
  unfolding after_connect
  after_connect-Books start_connect a fit b =
      after_stream-Books _ _ (connect_step-Fits backend hooks a fit).0 (connect_step-Books a fit b)
  after_connect-Books start_stream a fit b = after_stream-Books start_stream a fit b
  after_connect-Books start_kws a fit b = after_stream-Books start_kws a fit b
  after_connect-Books enter_sleep a fit b = after_stream-Books enter_sleep a fit b
  after_connect-Books no_action a fit b = after_stream-Books no_action a fit b

  mission-Books :
      (act : Action) (a : App C U)
      → Fits act a.fsm.state
      → Books a
      → Books (mission backend hooks act a)
  unfolding mission
  mission-Books start_kws a fit b =
      after_connect-Books _ _ (kws_step-Fits backend hooks a fit).0 (kws_step-Books a fit b)
  mission-Books start_connect a fit b = after_connect-Books start_connect a fit b
  mission-Books start_stream a fit b = after_connect-Books start_stream a fit b
  mission-Books enter_sleep a fit b = after_connect-Books enter_sleep a fit b
  mission-Books no_action a fit b = after_connect-Books no_action a fit b

  wake-Books : (a : App C U) → Books a → Books (wake backend hooks a).2
  unfolding wake
  wake-Books a b = ground (
    arith,
    power_wake_cause-Same backend a.power k,
    woke-rejects a.fsm (power_wake_cause backend a.power).0,
  )

  pub cycle_result-Books : (a : App C U) → Books a → Books (cycle_result backend hooks a)
  unfolding cycle_result
  cycle_result-Books a b = mission-Books _ _ (wake-Fits backend hooks a) (wake-Books a b)

  end_cycle-counts :
      (a : App C U)
      → ((end_cycle backend hooks a).power.mode ≡ a.power.mode)
        × ((end_cycle backend hooks a).cycles ≡ u32 (a.cycles + 1))
  unfolding end_cycle
  end_cycle-counts a = ground (arith, power_enter_deep_sleep-slept backend a.power k)

  -- The mode and the cycles of `b` are those that ending the cycle in `a` gives.
  abbrev Counts : App C U → App C U → Type 0
  Counts a b = (b.power.mode ≡ a.power.mode) × (b.cycles ≡ u32 (a.cycles + 1))

  after_stream-Counts : (act : Action) (a : App C U) → Counts a (after_stream backend hooks act a)
  unfolding after_stream stream_step
  after_stream-Counts start_stream a = end_cycle-counts (stream_step backend hooks a).1
  after_stream-Counts _ a = end_cycle-counts a

  after_connect-Counts : (act : Action) (a : App C U) → Counts a (after_connect backend hooks act a)
  unfolding after_connect connect_step
  after_connect-Counts start_connect a =
      after_stream-Counts (connect_step backend hooks a).0 (connect_step backend hooks a).1
  after_connect-Counts start_stream a = after_stream-Counts start_stream a
  after_connect-Counts start_kws a = after_stream-Counts start_kws a
  after_connect-Counts enter_sleep a = after_stream-Counts enter_sleep a
  after_connect-Counts no_action a = after_stream-Counts no_action a

  kws_step-counts :
      (a : App C U)
      → ((kws_step backend hooks a).1.power.mode ≡ a.power.mode)
        × ((kws_step backend hooks a).1.cycles ≡ a.cycles)
  unfolding kws_step power_note_false_wake
  kws_step-counts a = ground arith

  mission-Counts : (act : Action) (a : App C U) → Counts a (mission backend hooks act a)
  unfolding mission
  mission-Counts start_kws a = ground (
    arith,
    kws_step-counts a,
    after_connect-Counts (kws_step backend hooks a).0 (kws_step backend hooks a).1,
  )
  mission-Counts start_connect a = after_connect-Counts start_connect a
  mission-Counts start_stream a = after_connect-Counts start_stream a
  mission-Counts enter_sleep a = after_connect-Counts enter_sleep a
  mission-Counts no_action a = after_connect-Counts no_action a

  -- A cycle keeps the power mode and adds one to the cycle counter.
  pub cycle_result-counts :
      (a : App C U)
      → ((cycle_result backend hooks a).power.mode ≡ a.power.mode)
        × ((cycle_result backend hooks a).cycles ≡ u32 (a.cycles + 1))
  unfolding cycle_result wake
  cycle_result-counts a = ground (
    arith,
    power_wake_cause-Same backend a.power k,
    mission-Counts (wake backend hooks a).1 (wake backend hooks a).2,
  )
