-- ===== src/Debounce/Decide.antt =====
-- The decision to cut of server/src/debounce.c: when it falls, and for which reason.
use esp32s3_inmp.Base.{ℕ, ◌+◌, ◌^◌, ◌≤◌, ◌<◌, ◌≡◌, ◌≢◌, ◌⊎◌, ◌↔◌, true, false, arith, u32}
use esp32s3_inmp.Debounce.{
  Debounce, waiting, cut, CutReason, no_cut, debounced, max_session, silence, elapsed,
  debounce_should_cut,
}

-- A monotonic clock shown in 32 bits: the time that has passed is recovered across a wrap, as long
-- as less than 2^32 ms lie between the two readings.
pub elapsed_wrap : (t d : ℕ) → d < 2 ^ 32 → elapsed (u32 (t + d)) (u32 t) ≡ d
unfolding elapsed
elapsed_wrap t d h = omega arith

-- A timer is due: it is switched on, and at least its limit has passed.
abbrev pub Due : ℕ → ℕ → ℕ → Type 0
Due limit now since = (0 < limit) × (limit ≤ elapsed now since)

-- Each reason with its own timer, before the order of the tests is considered.
abbrev pub Holds : Debounce → ℕ → CutReason → Type 0
Holds d now max_session = Due d.cfg.max_session_ms now d.start_ms
Holds d now debounced = (d.state ≡ waiting) × Due d.cfg.debounce_ms now d.last_cmd_ms
Holds d now silence = Due d.cfg.silence_ms now d.last_speech_ms
Holds d now no_cut = ⊥

-- An open session is cut exactly when one of the three timers is due: the session cap, the
-- trailing silence once a command was heard, or the silence.
pub cut_iff_due :
    (d : Debounce) (now : ℕ)
    → d.state ≢ cut
    → ((debounce_should_cut d now).0 ≡ true)
      ↔ (Holds d now max_session ⊎ Holds d now debounced ⊎ Holds d now silence)
unfolding debounce_should_cut elapsed
cut_iff_due d now open_ = (λ h. ground arith, λ h. ground arith)

-- When an open session is cut, the recorded reason is a timer that is due, and the first such in the
-- order session cap, trailing silence, silence; nothing else of the session changes but its state.
pub cut_reason_first :
    (d : Debounce) (now : ℕ)
    → d.state ≢ cut
    → (debounce_should_cut d now).0 ≡ true
    → let d' = (debounce_should_cut d now).1 in
      Holds d now d'.reason
      × (Holds d now max_session → d'.reason ≡ max_session)
      × (Holds d now debounced → d'.reason ≢ silence)
      × (d' ≡ record d { state = cut; reason = d'.reason })
unfolding debounce_should_cut elapsed
cut_reason_first d now open_ h = (ground arith, ground arith, ground arith, ground arith)

-- A session that is not cut is left as it was.
pub no_cut_unchanged :
    (d : Debounce) (now : ℕ)
    → (debounce_should_cut d now).0 ≡ false
    → (debounce_should_cut d now).1 ≡ d
unfolding debounce_should_cut
no_cut_unchanged d now h = ground arith
