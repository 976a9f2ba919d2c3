-- ===== src/App/Run.antt =====
-- A cycle as the caller sees it, and how many cycles `app_run` makes.
use esp32s3_inmp.Base.{ℕ, zero, suc, ◌+◌, ◌≤◌, ◌≡◌, u32, true, false, some, arith}
use esp32s3_inmp.Power.{WakeCause, PowerBackend}
use esp32s3_inmp.App.{AppHooks, App, is_real, app_run_cycle, app_run, wake}
use esp32s3_inmp.App.Cycle.{cycle_result, app_run_cycle_returns}
use esp32s3_inmp.App.Cycle.Books.{Books, cycle_result-counts, cycle_result-Books}
use esp32s3_inmp.App.Cycle.Settles.{
  Answers, Asleep, IsWaiting, cycle_result-Asleep, cycle_result_stuck,
}
use esp32s3_inmp.Fsm.Graph.{IsIdle}
use esp32s3_inmp.Power.Keeps.{Keeps}

module _ {C U : Type 0} (backend : PowerBackend C) (hooks : AppHooks U) where
  -- The state after `n` cycles.
  pub cycles_result : ℕ → App C U → App C U
  cycles_result zero a = a
  cycles_result (suc n) a = cycles_result n (cycle_result backend hooks a)

  -- Outside REAL mode `app_run` makes all the cycles that it is asked for, each with the result of a
  -- single cycle, and the cycle counter goes up by their number, modulo 2^32.
  pub app_run_awake :
      (fuel n : ℕ) (a : App C U)
      → Keeps backend
      → 4 ≤ fuel
      → is_real a.power.mode ≡ false
      → (app_run backend hooks fuel n a ≡ some (cycles_result n a))
        × (u32 (cycles_result n a).cycles ≡ u32 (a.cycles + n))
  unfolding app_run cycles_result
  app_run_awake fuel zero a k le awake = ground arith
  app_run_awake fuel (suc n) a k le awake = ground (
    arith,
    app_run_cycle_returns backend hooks fuel a le,
    cycle_result-counts backend hooks k a,
    app_run_awake fuel n (cycle_result backend hooks a) k le,
  )

  -- In REAL mode `app_run` makes one cycle, however many it is asked for, as long as it is asked for
  -- any.
  pub app_run_real :
      (fuel n : ℕ) (a : App C U)
      → Keeps backend
      → 4 ≤ fuel
      → is_real a.power.mode ≡ true
      → app_run backend hooks fuel (suc n) a ≡ some (cycle_result backend hooks a)
  unfolding app_run
  app_run_real fuel n a k le asleep =
      ground (
        arith,
        app_run_cycle_returns backend hooks fuel a le,
        cycle_result-counts backend hooks k a,
      )

  -- A cycle that starts in BOOT, SLEEP or ERROR, with hooks that answer with the events that their states
  -- wait for or with a hard error, returns in SLEEP or ERROR: the next wake-up is heard again.
  pub app_run_cycle_sleeps :
      (fuel : ℕ) (a : App C U)
      → 4 ≤ fuel
      → Answers hooks
      → IsIdle a.fsm.state
      → (r : WakeCause × App C U) × (app_run_cycle backend hooks fuel a ≡ some r)
        × Asleep r.1.fsm.state
  app_run_cycle_sleeps fuel a le k h = (
    ((wake backend hooks a).0, cycle_result backend hooks a),
    app_run_cycle_returns backend hooks fuel a le,
    cycle_result-Asleep backend hooks a k h,
  )

  -- A machine that is left waiting, in CONFIRM_KWS, CONNECT or STREAM, is stuck: the next cycle returns
  -- with one more cycle counted, and with the machine and the state of the hooks as they were, so it runs
  -- no hook and no later cycle leaves the state either.
  pub app_run_cycle_stuck :
      (fuel : ℕ) (a : App C U)
      → 4 ≤ fuel
      → IsWaiting a.fsm.state
      → (r : WakeCause × App C U) × (app_run_cycle backend hooks fuel a ≡ some r)
        × (r.1.fsm ≡ a.fsm)
        × (r.1.user ≡ a.user)
        × (r.1.cycles ≡ u32 (a.cycles + 1))
  app_run_cycle_stuck fuel a le h =
      let (f, u, c) = cycle_result_stuck backend hooks a h in
      (
        ((wake backend hooks a).0, cycle_result backend hooks a),
        app_run_cycle_returns backend hooks fuel a le,
        f,
        u,
        c,
      )

  -- A cycle keeps the books, whatever the hooks answer: it returns, and the machine's count of rejected
  -- wake-ups is still the power controller's count of false wakes, and outside STAY_AWAKE the count of
  -- sleeps still that of cycles. The backend must keep to its own state.
  pub app_run_cycle-Books :
      (fuel : ℕ) (a : App C U)
      → 4 ≤ fuel
      → Keeps backend
      → Books a
      → (r : WakeCause × App C U) × (app_run_cycle backend hooks fuel a ≡ some r) × Books r.1
  app_run_cycle-Books fuel a le k b = (
    ((wake backend hooks a).0, cycle_result backend hooks a),
    app_run_cycle_returns backend hooks fuel a le,
    cycle_result-Books backend hooks k a b,
  )
