-- ===== src/Debounce/Trace.antt =====
-- Sequences of calls on one session, in any order and at any times.
use esp32s3_inmp.Base.{ℕ, ◌+◌, ◌^◌, ◌≤◌, ◌<◌, ◌≡◌, ◌≢◌, refl, List, [], ◌∷◌, ◌++◌, true, arith, u32}
use esp32s3_inmp.Debounce.{
  Debounce, DebounceCfg, listening, waiting, cut, no_cut, debounce_init, debounce_note_speech,
  debounce_note_command, debounce_should_cut,
}
use esp32s3_inmp.Debounce.Decide.{elapsed_wrap}

-- The calls that the session makes, each with the clock reading that it passes.
pub data Call : Type 0 where
  speech command tick : ℕ → Call

unfoldable pub step : Debounce → Call → Debounce
step d (speech t) = debounce_note_speech d t
step d (command t) = debounce_note_command d t
step d (tick t) = (debounce_should_cut d t).1

unfoldable pub run : Debounce → List Call → Debounce
run d [] = d
run d (c ∷ cs) = run (step d c) cs

-- What holds of a session between calls: a reason is recorded exactly when the session is cut, and
-- the state tells whether a command was heard.
pub record IsValid (d : Debounce) : Type 0 where
  pub cut_has_reason : d.state ≡ cut → d.reason ≢ no_cut
  pub open_has_none : d.state ≢ cut → d.reason ≡ no_cut
  pub listening_no_command : d.state ≡ listening → d.commands ≡ 0
  pub waiting_command : d.state ≡ waiting → 0 < d.commands

init-IsValid : (cfg : DebounceCfg) (t : ℕ) → IsValid (debounce_init cfg t)
unfolding debounce_init
init-IsValid cfg t = ground arith

step-IsValid : (d : Debounce) (c : Call) → IsValid d → IsValid (step d c)
unfolding step debounce_note_speech debounce_note_command debounce_should_cut
step-IsValid d (speech t) v = ground arith
step-IsValid d (command t) v = ground arith
step-IsValid d (tick t) v = ground arith

run_from-IsValid : (d : Debounce) (cs : List Call) → IsValid d → IsValid (run d cs)
unfolding run
run_from-IsValid d [] v = v
run_from-IsValid d (c ∷ cs) v = run_from-IsValid (step d c) cs (step-IsValid d c v)

-- After any calls on a new session, a reason is recorded exactly when it is cut, and it waits for the
-- debounce window only if it has heard a command.
pub run-IsValid :
    (cfg : DebounceCfg) (t : ℕ) (cs : List Call) → IsValid (run (debounce_init cfg t) cs)
run-IsValid cfg t cs = run_from-IsValid _ cs (init-IsValid cfg t)

step_cut : (d : Debounce) (c : Call) → d.state ≡ cut → step d c ≡ d
unfolding step debounce_note_speech debounce_note_command debounce_should_cut
step_cut d (speech t) h = ground arith
step_cut d (command t) h = ground arith
step_cut d (tick t) h = ground arith

-- A cut is final: no later call changes anything, and each tick asks again for the cut.
pub cut_final :
    (d : Debounce) (cs : List Call) (t : ℕ)
    → d.state ≡ cut
    → (run d cs ≡ d) × ((debounce_should_cut (run d cs) t).0 ≡ true)
unfolding run debounce_should_cut
cut_final d [] t h = ground arith
cut_final d (c ∷ cs) t h = ground (arith, step_cut d c h, cut_final d cs t)

step_keeps :
    (d : Debounce) (c : Call) → ((step d c).cfg ≡ d.cfg) × ((step d c).start_ms ≡ d.start_ms)
unfolding step debounce_note_speech debounce_note_command debounce_should_cut
step_keeps d (speech t) = ground arith
step_keeps d (command t) = ground arith
step_keeps d (tick t) = ground arith

run_keeps :
    (d : Debounce) (cs : List Call) → ((run d cs).cfg ≡ d.cfg) × ((run d cs).start_ms ≡ d.start_ms)
unfolding run
run_keeps d [] = (refl, refl)
run_keeps d (c ∷ cs) = ground (arith, step_keeps d c, run_keeps (step d c) cs)

-- The session cap is hard: whatever was said before, a tick that comes `d` milliseconds after the
-- start, with `d` at least the cap and below 2^32, cuts the session, also if the clock wrapped.
pub session_capped :
    (cfg : DebounceCfg) (start d : ℕ) (cs : List Call)
    → 0 < cfg.max_session_ms
    → cfg.max_session_ms ≤ d
    → d < 2 ^ 32
    → (debounce_should_cut (run (debounce_init cfg (u32 start)) cs) (u32 (start + d))).0 ≡ true
unfolding debounce_init debounce_should_cut
session_capped cfg start d cs on due small =
    ground (arith, run_keeps (debounce_init cfg (u32 start)) cs, elapsed_wrap start d small)

pub run-snoc :
    (d : Debounce) (cs : List Call) (c : Call) → run d (cs ++ (c ∷ [])) ≡ step (run d cs) c
unfolding run
run-snoc d [] c = refl
run-snoc d (b ∷ cs) c = run-snoc (step d b) cs c
