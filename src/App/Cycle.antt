-- ===== src/App/Cycle.antt =====
-- One wake cycle of firmware/core/src/app.c: how it ends, and where it leaves the machine.
pub mod Books
pub mod Settles
use esp32s3_inmp.Base.{
  ℕ, zero, suc, ◌+◌, ◌≤◌, ◌≡◌, refl, ap, ◌⊎◌, inl, inr, u32, Bool, true, false, Option, none, some,
  arith,
}
use esp32s3_inmp.Power.{WakeCause, unknown, PowerCtrl, PowerBackend, power_note_false_wake}
use esp32s3_inmp.Fsm.{
  State, boot, confirm_kws, connect, stream, sleep, error, Event, woke, kws_confirmed, kws_rejected,
  connected, connect_failed, server_closed, session_timeout, failure, no_event, Action, no_action,
  start_kws, start_connect, start_stream, enter_sleep, Fsm, fsm_dispatch,
}
use esp32s3_inmp.App.{
  AppHooks, App, call_hook, kws_step, connect_step, stream_step, end_cycle, cycle_loop, wake,
  app_run_cycle, with_cause,
}

-- The action fits the state: a hook is only started in the state that waits for its event.
abbrev pub Fits : Action → State → Type 0
Fits start_kws s = s ≡ confirm_kws
Fits start_connect s = s ≡ connect
Fits start_stream s = s ≡ stream
Fits _ s = Unit {0}

-- How many more hooks an action may lead to.
abbrev pub hooks_left : Action → ℕ
hooks_left start_kws = 3
hooks_left start_connect = 2
hooks_left start_stream = 1
hooks_left _ = 0

woke-Fits :
    (f : Fsm) (c : WakeCause) → Fits (fsm_dispatch f woke c).0 (fsm_dispatch f woke c).1.state
unfolding fsm_dispatch
woke-Fits f c = ground arith

kws-Fits :
    (f : Fsm) (ev : Event)
    → f.state ≡ confirm_kws
    → Fits (fsm_dispatch f ev unknown).0 (fsm_dispatch f ev unknown).1.state
      × (hooks_left (fsm_dispatch f ev unknown).0 ≤ 2)
unfolding fsm_dispatch
kws-Fits f ev h = ground arith

connect-Fits :
    (f : Fsm) (ev : Event)
    → f.state ≡ connect
    → Fits (fsm_dispatch f ev unknown).0 (fsm_dispatch f ev unknown).1.state
      × (hooks_left (fsm_dispatch f ev unknown).0 ≤ 1)
unfolding fsm_dispatch
connect-Fits f ev h = ground arith

stream-Fits :
    (f : Fsm) (ev : Event)
    → f.state ≡ stream
    → Fits (fsm_dispatch f ev unknown).0 (fsm_dispatch f ev unknown).1.state
      × (hooks_left (fsm_dispatch f ev unknown).0 ≤ 0)
unfolding fsm_dispatch
stream-Fits f ev h = ground arith

module _ {C U : Type 0} (backend : PowerBackend C) (hooks : AppHooks U) where
  -- The cycle without its loop: at most one hook of each kind, in the order of the mission.
  pub after_stream : Action → App C U → App C U
  after_stream start_stream a = end_cycle backend hooks (stream_step backend hooks a).1
  after_stream _ a = end_cycle backend hooks a

  pub after_connect : Action → App C U → App C U
  after_connect start_connect a = let (act, b) = connect_step backend hooks a in after_stream act b
  after_connect act a = after_stream act a

  pub mission : Action → App C U → App C U
  mission start_kws a = let (act, b) = kws_step backend hooks a in after_connect act b
  mission act a = after_connect act a

  kws_step-Fits :
      (a : App C U)
      → a.fsm.state ≡ confirm_kws
      → let (act, b) = kws_step backend hooks a in Fits act b.fsm.state × (hooks_left act ≤ 2)
  unfolding kws_step
  kws_step-Fits a h = kws-Fits a.fsm _ h

  connect_step-Fits :
      (a : App C U)
      → a.fsm.state ≡ connect
      → let (act, b) = connect_step backend hooks a in Fits act b.fsm.state × (hooks_left act ≤ 1)
  unfolding connect_step
  connect_step-Fits a h = connect-Fits a.fsm _ h

  stream_step-Fits :
      (a : App C U) → a.fsm.state ≡ stream → hooks_left (stream_step backend hooks a).0 ≤ 0
  unfolding stream_step
  stream_step-Fits a h = (stream-Fits a.fsm _ h).1

  end_loop :
      (n : ℕ) (act : Action) (a : App C U)
      → hooks_left act ≤ 0
      → cycle_loop backend hooks (suc n) act a ≡ some (end_cycle backend hooks a)
  unfolding cycle_loop
  end_loop n start_kws a h = absurd (omega arith)
  end_loop n start_connect a h = absurd (omega arith)
  end_loop n start_stream a h = absurd (omega arith)
  end_loop n enter_sleep a h = refl
  end_loop n no_action a h = refl

  stream_loop :
      (n : ℕ) (act : Action) (a : App C U)
      → Fits act a.fsm.state
      → hooks_left act ≤ 1
      → cycle_loop backend hooks (suc (suc n)) act a ≡ some (after_stream act a)
  unfolding cycle_loop after_stream
  stream_loop n start_kws a fit h = absurd (omega arith)
  stream_loop n start_connect a fit h = absurd (omega arith)
  stream_loop n start_stream a fit h =
      let (act, b) = stream_step backend hooks a in end_loop n act b (stream_step-Fits a fit)
  stream_loop n enter_sleep a fit h = refl
  stream_loop n no_action a fit h = refl

  connect_loop :
      (n : ℕ) (act : Action) (a : App C U)
      → Fits act a.fsm.state
      → hooks_left act ≤ 2
      → cycle_loop backend hooks (suc (suc (suc n))) act a ≡ some (after_connect act a)
  unfolding cycle_loop after_connect
  connect_loop n start_kws a fit h = absurd (omega arith)
  connect_loop n start_connect a fit h =
      let (act, b) = connect_step backend hooks a in
      let (fits, fewer) = connect_step-Fits a fit in stream_loop n act b fits fewer
  connect_loop n start_stream a fit h = stream_loop (suc n) start_stream a fit (omega arith)
  connect_loop n enter_sleep a fit h = stream_loop (suc n) enter_sleep a tt (omega arith)
  connect_loop n no_action a fit h = stream_loop (suc n) no_action a tt (omega arith)

  mission_loop :
      (n : ℕ) (act : Action) (a : App C U)
      → Fits act a.fsm.state
      → cycle_loop backend hooks (suc (suc (suc (suc n)))) act a ≡ some (mission act a)
  unfolding cycle_loop mission
  mission_loop n start_kws a fit =
      let (act, b) = kws_step backend hooks a in
      let (fits, fewer) = kws_step-Fits a fit in connect_loop n act b fits fewer
  mission_loop n start_connect a fit = connect_loop (suc n) start_connect a fit (omega arith)
  mission_loop n start_stream a fit = connect_loop (suc n) start_stream a fit (omega arith)
  mission_loop n enter_sleep a fit = connect_loop (suc n) enter_sleep a tt (omega arith)
  mission_loop n no_action a fit = connect_loop (suc n) no_action a tt (omega arith)

  wake-Fits : (a : App C U) → let (_, act, b) = wake backend hooks a in Fits act b.fsm.state
  unfolding wake
  wake-Fits a = woke-Fits a.fsm _

  -- The application after the cycle that starts from `a`.
  pub cycle_result : App C U → App C U
  cycle_result a = let (_, act, b) = wake backend hooks a in mission act b

  -- From any state, with any hooks and any power backend, the endless loop of a cycle ends: four
  -- rounds suffice, whatever the hooks answer. The cycle is the straight line of wake-word check,
  -- connect and stream, each at most once, and it returns the wake cause.
  pub app_run_cycle_returns :
      (fuel : ℕ) (a : App C U)
      → 4 ≤ fuel
      → app_run_cycle backend hooks fuel a ≡ some ((wake backend hooks a).0, cycle_result a)
  unfolding app_run_cycle cycle_result with_cause
  app_run_cycle_returns zero a h = absurd (omega arith)
  app_run_cycle_returns (suc zero) a h = absurd (omega arith)
  app_run_cycle_returns (suc (suc zero)) a h = absurd (omega arith)
  app_run_cycle_returns (suc (suc (suc zero))) a h = absurd (omega arith)
  app_run_cycle_returns (suc (suc (suc (suc n)))) a h =
      let (cause, act, b) = wake backend hooks a in
      ap (with_cause cause) (mission_loop n act b (wake-Fits a))
