-- ===== src/Device/Cycle.antt =====
-- The cycles of the device, from boot on.
use esp32s3_inmp.Base.{
  ℕ, zero, suc, ◌≤◌, ◌≡◌, refl, inl, inr, Bool, true, false, Option, some, if◌then◌else◌,
}
use esp32s3_inmp.Fsm.{State, fsm_init}
use esp32s3_inmp.Fsm.Graph.{IsIdle, idle_boot, idle_sleep, idle_error}
use esp32s3_inmp.Power.{PowerMode, PowerBackend}
use esp32s3_inmp.App.{App, app_init, is_real}
use esp32s3_inmp.App.Run.{app_run_cycle_sleeps}
use esp32s3_inmp.App.Cycle.Settles.{Asleep}
use esp32s3_inmp.Mic.Source.{ReadsFit}
use esp32s3_inmp.Device.{Config, Board, AppCtx, device_hooks, main_loop, app_main}
use esp32s3_inmp.Device.Session.{IsShort, device_hooks-Answers}

Asleep-IsIdle : (s : State) → Asleep s → IsIdle s
Asleep-IsIdle s (inl e) = rw e idle_sleep
Asleep-IsIdle s (inr e) = rw e idle_error

-- The loop is back at its head, with a machine that hears the next wake-up.
abbrev pub Listens : {C U : Type 0} → Option (App C U) → Type 0
Listens {C} {U} o = (a : App C U) × (o ≡ some a) × IsIdle a.fsm.state

module _ {W K C : Type 0} (b : Board W K) (cfg : Config) (fits : ReadsFit b.mic)
    (short : IsShort cfg) (backend : PowerBackend C) (mode : PowerMode) where
  loop_once :
      (real : Bool) (a : App C (AppCtx W K)) (rest : Option (App C (AppCtx W K)))
      → IsIdle a.fsm.state
      → Listens rest
      → Listens (if real then some a else rest)
  loop_once true a rest i l = (a, refl, i)
  loop_once false a rest i l = l

  main_loop-Listens :
      (fuel n : ℕ) (a : App C (AppCtx W K))
      → 4 ≤ fuel
      → IsIdle a.fsm.state
      → Listens (main_loop b cfg backend mode fuel n a)
  unfolding main_loop
  main_loop-Listens fuel zero a le i = (a, refl, i)
  main_loop-Listens fuel (suc n) a le i =
      let (r, e, asleep) =
        app_run_cycle_sleeps backend (device_hooks b cfg) fuel a le
          (device_hooks-Answers b cfg fits short) i in
      let idle : IsIdle r.1.fsm.state = Asleep-IsIdle r.1.fsm.state asleep in
      rw (e, main_loop)
        (loop_once (is_real mode) r.1 (main_loop b cfg backend mode fuel n r.1) idle
          (main_loop-Listens fuel n r.1 le idle))

  -- The loop of the device never gets stuck, whatever the microphone, the wake-word model, Wi-Fi, the server
  -- and the power hardware answer, and however large the scratch buffer is: each cycle of `app_main` from
  -- boot on returns, and after any number of them the state machine is in BOOT, SLEEP or ERROR, where it hears
  -- the next wake-up. Every call of a driver must return, `send` and `connect` among them, for which the code
  -- sets no time limit; the I2S driver must not read more bytes than it is asked for, the signals that
  -- interrupt a send must come to an end, and the scratch buffer and the texts of the configuration must be
  -- shorter than 2^31 bytes. Four rounds of fuel serve a cycle.
  pub app_main-Listens :
      (fuel n : ℕ) (ctx : C) (user : AppCtx W K)
      → 4 ≤ fuel
      → Listens (app_main b cfg backend mode fuel n ctx user)
  unfolding app_main app_init fsm_init
  app_main-Listens fuel n ctx user le = main_loop-Listens fuel n _ le idle_boot
