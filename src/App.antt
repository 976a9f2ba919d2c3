-- ===== src/App.antt =====
-- firmware/core/src/app.c: one wake cycle, and the run of cycles.
-- `app_t` is the record `App`: the state machine, the power controller that `a->power` points to,
-- the state behind `hooks.user`, and the cycle counter (`uint32_t`). A hook is a function of the
-- user's state, `none` where the pointer is NULL. The hooks and the power backend are parameters:
-- they are the code's own callbacks, and a hook does not reach the power controller.
pub mod Cycle
pub mod Run
use esp32s3_inmp.Base.{ℕ, zero, suc, ◌+◌, u32, Bool, true, false, Option, none, some, if◌then◌else◌}
use esp32s3_inmp.Power.{
  PowerMode, stay_awake, real, dryrun, WakeCause, unknown, PowerCtrl, PowerBackend,
  power_wake_cause, power_enter_deep_sleep, power_note_false_wake,
}
use esp32s3_inmp.Fsm.{
  Event, woke, kws_rejected, connect_failed, session_timeout, Action, no_action, start_kws,
  start_connect, start_stream, enter_sleep, Fsm, fsm_init, fsm_dispatch,
}

pub record AppHooks (U : Type 0) : Type 0 where
  pub run_kws : Option (U → Event × U)
  pub connect : Option (U → Event × U)
  pub stream : Option (U → Event × U)

pub record App (C U : Type 0) : Type 0 where
  pub fsm : Fsm
  pub power : PowerCtrl C
  pub user : U
  pub cycles : ℕ

abbrev pub is_rejected : Event → Bool
is_rejected kws_rejected = true
is_rejected _ = false

abbrev pub is_real : PowerMode → Bool
is_real real = true
is_real _ = false

unfoldable pub call_hook : {U : Type 0} → Option (U → Event × U) → U → Event → Event × U
call_hook none user fallback = (fallback, user)
call_hook (some fn) user fallback = fn user

module _ {C U : Type 0} where
  unfoldable pub app_init : PowerCtrl C → U → App C U
  app_init power user = record { fsm = fsm_init; power = power; user = user; cycles = 0 }

-- The cause goes out with the application, if the loop ended.
pub with_cause : {A : Type 0} → WakeCause → Option A → Option (WakeCause × A)
with_cause cause none = none
with_cause cause (some b) = some (cause, b)

module _ {C U : Type 0} (backend : PowerBackend C) (hooks : AppHooks U) where
  -- The case FSM_ACT_START_KWS of the loop.
  pub kws_step : App C U → Action × App C U
  kws_step a =
      let (ev, user) = call_hook hooks.run_kws a.user kws_rejected in
      let power : PowerCtrl C = if is_rejected ev then power_note_false_wake a.power else a.power in
      let (act, fsm) = fsm_dispatch a.fsm ev unknown in
      (act, record a { fsm = fsm; power = power; user = user })

  -- The case FSM_ACT_START_CONNECT.
  pub connect_step : App C U → Action × App C U
  connect_step a =
      let (ev, user) = call_hook hooks.connect a.user connect_failed in
      let (act, fsm) = fsm_dispatch a.fsm ev unknown in (act, record a { fsm = fsm; user = user })

  -- The case FSM_ACT_START_STREAM.
  pub stream_step : App C U → Action × App C U
  stream_step a =
      let (ev, user) = call_hook hooks.stream a.user session_timeout in
      let (act, fsm) = fsm_dispatch a.fsm ev unknown in (act, record a { fsm = fsm; user = user })

  -- The end of the cycle, for FSM_ACT_ENTER_SLEEP, FSM_ACT_NONE and any other action.
  pub end_cycle : App C U → App C U
  end_cycle a = record a {
    cycles = u32 (a.cycles + 1);
    power = (power_enter_deep_sleep backend a.power).1;
  }

  -- `for (;;) switch (act)`, with fuel; `none` means that the fuel ran out.
  pub cycle_loop : ℕ → Action → App C U → Option (App C U)
  cycle_loop zero act a = none
  cycle_loop (suc n) start_kws a = let (act, a') = kws_step a in cycle_loop n act a'
  cycle_loop (suc n) start_connect a = let (act, a') = connect_step a in cycle_loop n act a'
  cycle_loop (suc n) start_stream a = let (act, a') = stream_step a in cycle_loop n act a'
  cycle_loop (suc n) enter_sleep a = some (end_cycle a)
  cycle_loop (suc n) no_action a = some (end_cycle a)

  -- What happens before the loop: the wake cause is read and dispatched.
  pub wake : App C U → WakeCause × Action × App C U
  wake a =
      let (cause, power) = power_wake_cause backend a.power in
      let (act, fsm) = fsm_dispatch a.fsm woke cause in
      (cause, act, record a { fsm = fsm; power = power })

  pub app_run_cycle : ℕ → App C U → Option (WakeCause × App C U)
  app_run_cycle fuel a = let (cause, act, a') = wake a in with_cause cause (cycle_loop fuel act a')

  -- The loop of `app_run` on the cycles that are left.
  pub app_run : ℕ → ℕ → App C U → Option (App C U)
  app_run fuel zero a = some a
  app_run fuel (suc n) a = elim (app_run_cycle fuel a) [
    | none ↦ none
    | some (cause, b) ↦ let rest = app_run fuel n b in if is_real b.power.mode then some b else rest
  ]
