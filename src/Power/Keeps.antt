-- ===== src/Power/Keeps.antt =====
-- What the power controller relies on of a backend, and what its operations keep.
use esp32s3_inmp.Base.{ℕ, ◌+◌, ◌≡◌, refl, u32, Option, none, some}
use esp32s3_inmp.Power.{
  PowerMode, stay_awake, dryrun, real, WakeCause, PowerCtrl, PowerBackend, power_wake_cause,
  power_enter_deep_sleep, ask_cause, call_sleep, sleep_in,
}

-- The fields of the controller that are its own, not the backend's.
pub record Same {C : Type 0} (p q : PowerCtrl C) : Type 0 where
  pub mode : p.mode ≡ q.mode
  pub sleeps : p.sleep_count ≡ q.sleep_count
  pub false_wakes : p.false_wake_count ≡ q.false_wake_count

abbrev pub SleepKeeps : {C : Type 0} → Option (PowerCtrl C → PowerCtrl C) → Type 0
SleepKeeps none = Unit {0}
SleepKeeps {C} (some f) = (pc : PowerCtrl C) → Same (f pc) pc

abbrev pub CauseKeeps : {C : Type 0} → Option (PowerCtrl C → WakeCause × PowerCtrl C) → Type 0
CauseKeeps none = Unit {0}
CauseKeeps {C} (some f) = (pc : PowerCtrl C) → Same (f pc).1 pc

-- A backend changes nothing of the controller but its private state, as the comments of power.h
-- divide the structure.
pub record Keeps {C : Type 0} (b : PowerBackend C) : Type 0 where
  pub on_sleep : SleepKeeps b.enter_deep_sleep
  pub on_cause : CauseKeeps b.wake_cause

abbrev pub slept : PowerMode → ℕ → ℕ
slept stay_awake n = n
slept _ n = u32 (n + 1)

module _ {C : Type 0} where
  ask_cause-Same :
      (o : Option (PowerCtrl C → WakeCause × PowerCtrl C)) (pc : PowerCtrl C)
      → CauseKeeps o
      → Same (ask_cause o pc).1 pc
  unfolding ask_cause
  ask_cause-Same none pc k = record { mode = refl; sleeps = refl; false_wakes = refl }
  ask_cause-Same (some f) pc k = k pc

  pub power_wake_cause-Same :
      (b : PowerBackend C) (pc : PowerCtrl C) → Keeps b → Same (power_wake_cause b pc).1 pc
  unfolding power_wake_cause
  power_wake_cause-Same b pc k = ask_cause-Same b.wake_cause pc k.on_cause

  call_sleep-Same :
      (o : Option (PowerCtrl C → PowerCtrl C)) (pc : PowerCtrl C)
      → SleepKeeps o
      → Same (call_sleep o pc) pc
  unfolding call_sleep
  call_sleep-Same none pc k = record { mode = refl; sleeps = refl; false_wakes = refl }
  call_sleep-Same (some f) pc k = k pc

  sleep_in-slept :
      (m : PowerMode) (b : PowerBackend C) (pc : PowerCtrl C)
      → Keeps b
      → Same (sleep_in m b pc) (record pc { sleep_count = slept m pc.sleep_count })
  unfolding sleep_in
  sleep_in-slept stay_awake b pc k = record { mode = refl; sleeps = refl; false_wakes = refl }
  sleep_in-slept dryrun b pc k = call_sleep-Same b.enter_deep_sleep _ k.on_sleep
  sleep_in-slept real b pc k = call_sleep-Same b.enter_deep_sleep _ k.on_sleep

  -- A request to sleep counts one sleep exactly when the mode is not STAY_AWAKE, with a counter that
  -- wraps at 2^32, and changes neither the mode nor the count of false wakes, if the backend keeps
  -- to its own state.
  pub power_enter_deep_sleep-slept :
      (b : PowerBackend C) (pc : PowerCtrl C)
      → Keeps b
      → Same
          (power_enter_deep_sleep b pc).1
          (record pc { sleep_count = slept pc.mode pc.sleep_count })
  unfolding power_enter_deep_sleep
  power_enter_deep_sleep-slept b pc k = sleep_in-slept pc.mode b pc k
