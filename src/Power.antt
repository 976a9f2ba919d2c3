-- ===== src/Power.antt =====
-- firmware/core/src/power.c: the deep-sleep controller behind its backend interface.
-- A backend is `power_backend_t`: two optional callbacks over the controller and the backend's
-- private state `ctx` (a `none` is a NULL pointer). A callback that returns is a function from the
-- controller to the controller; on a device a REAL sleep does not return, and what the model says
-- after it is what the host backends do.
pub mod Keeps
use esp32s3_inmp.Base.{ℕ, ◌+◌, u32, Bool, true, Option, none, some, String}

pub data PowerMode : Type 0 where
  stay_awake dryrun real : PowerMode

pub data WakeCause : Type 0 where
  unknown power_on sound_trigger button timer : WakeCause

-- `struct power_ctrl` without the callbacks.
pub record PowerCtrl (C : Type 0) : Type 0 where
  pub mode : PowerMode
  pub ctx : C
  pub sleep_count : ℕ
  pub false_wake_count : ℕ

pub record PowerBackend (C : Type 0) : Type 0 where
  pub enter_deep_sleep : Option (PowerCtrl C → PowerCtrl C)
  pub wake_cause : Option (PowerCtrl C → WakeCause × PowerCtrl C)

module _ {C : Type 0} where
  unfoldable pub power_init : PowerMode → C → PowerCtrl C
  power_init mode ctx = record { mode = mode; ctx = ctx; sleep_count = 0; false_wake_count = 0 }

  -- With no backend every cycle is a cold boot.
  ask_cause : Option (PowerCtrl C → WakeCause × PowerCtrl C) → PowerCtrl C → WakeCause × PowerCtrl C
  ask_cause none pc = (power_on, pc)
  ask_cause (some f) pc = f pc

  unfoldable pub power_wake_cause : PowerBackend C → PowerCtrl C → WakeCause × PowerCtrl C
  unfolding ask_cause
  power_wake_cause b pc = ask_cause b.wake_cause pc

  -- The call of the backend's `enter_deep_sleep`, if there is one.
  call_sleep : Option (PowerCtrl C → PowerCtrl C) → PowerCtrl C → PowerCtrl C
  call_sleep none pc = pc
  call_sleep (some f) pc = f pc

  sleep_in : PowerMode → PowerBackend C → PowerCtrl C → PowerCtrl C
  unfolding call_sleep
  sleep_in stay_awake b pc = pc
  sleep_in _ b pc =
      call_sleep b.enter_deep_sleep (record pc { sleep_count = u32 (pc.sleep_count + 1) })

  unfoldable pub power_enter_deep_sleep : PowerBackend C → PowerCtrl C → Bool × PowerCtrl C
  unfolding sleep_in
  power_enter_deep_sleep b pc = (true, sleep_in pc.mode b pc)

  unfoldable pub power_note_false_wake : PowerCtrl C → PowerCtrl C
  power_note_false_wake pc = record pc { false_wake_count = u32 (pc.false_wake_count + 1) }

unfoldable pub power_wake_cause_str : WakeCause → String
power_wake_cause_str unknown = "unknown"
power_wake_cause_str power_on = "power_on"
power_wake_cause_str sound_trigger = "sound_trigger"
power_wake_cause_str button = "button"
power_wake_cause_str timer = "timer"

unfoldable pub power_mode_str : PowerMode → String
power_mode_str stay_awake = "stay_awake"
power_mode_str dryrun = "dryrun"
power_mode_str real = "real"
