-- ===== src/Session/Driven.antt =====
-- What a session does to its debounce timer, seen from outside: a sequence of calls.
use esp32s3_inmp.Base.{
  ℕ, ◌≤◌, ◌≡◌, refl, sym, ap, ◌∙◌, List, [], ◌∷◌, ◌++◌, Bytes, Option, none, some, arith, length,
  take, length-take, Bool-cases, inl, inr, ltb, u32, ◌/◌,
}
use esp32s3_inmp.Debounce.{Debounce, debounce_note_speech, debounce_should_cut, debounce_init}
use esp32s3_inmp.Debounce.Trace.{Call, speech, command, tick, step, run, run-snoc}
use esp32s3_inmp.Intent.{IntentEntry, intent_match}
use esp32s3_inmp.Session.{
  Session, SessionCfg, SttBackend, Energy, note_energy, note_intent, note_transcript, session_tick,
  session_init,
}
use esp32s3_inmp.Session.Pcm.{InStep, IsKept, note_intent-InStep}

-- A session whose timer started as `d`: calls alone have brought it where it is; the counts of commands
-- agree; and the last transcript fits its buffer.
pub record IsDriven {C : Type 0} (d : Debounce) (s : Session C) : Type 0 where
  pub calls : List Call
  pub deb_is : s.deb ≡ run d calls
  pub in_step : InStep s
  pub text_fits : length s.last_transcript ≤ 127

module _ {C : Type 0} (d : Debounce) where
  -- One more call.
  one_more :
      (s s' : Session C) (c : Call)
      → IsDriven d s
      → s'.deb ≡ step s.deb c
      → InStep s'
      → s'.last_transcript ≡ s.last_transcript
      → IsDriven d s'
  one_more s s' c v e i l = record {
    calls = v.calls ++ (c ∷ []);
    deb_is = e ∙ (ap (λ b. step b c) v.deb_is ∙ sym (run-snoc d v.calls c));
    in_step = i;
    text_fits = omega (arith, ap length l, v.text_fits);
  }

  on_energy : (e : Energy C) (t : ℕ) (s : Session C) → IsDriven d s → IsDriven d (note_energy e t s)
  unfolding note_energy step debounce_note_speech
  on_energy e t s v =
      let kept : IsDriven d (record s { ctx = e.ctx }) = record {
        calls = v.calls;
        deb_is = v.deb_is;
        in_step = record { agree = (v.in_step).agree };
        text_fits = v.text_fits;
      } in
      elim (Bool-cases (ltb 0 e.energy_n)) [
        | inl p ↦
            elim (Bool-cases (ltb s.cfg.vad.energy_thresh (u32 (e.energy_sum / e.energy_n)))) [
              | inl q ↦
                  rw (p, q)
                    (one_more s (record s { ctx = e.ctx; deb = debounce_note_speech s.deb t })
                      (speech t) v refl (record { agree = λ h. ground (arith, (v.in_step).agree) })
                      refl)
              | inr q ↦ rw (p, q) kept
            ]
        | inr p ↦ rw p kept
      ]

  on_intent :
      (m : Option IntentEntry) (t : ℕ) (s : Session C)
      → IsDriven d s
      → InStep (note_intent m t s)
      → IsDriven d (note_intent m t s)
  unfolding note_intent step
  on_intent none t s v i = v
  on_intent (some e) t s v i = one_more s _ (command t) v refl i refl

  on_transcript :
      (text : Bytes) (t : ℕ) (s : Session C) → IsDriven d s → IsDriven d (note_transcript text t s)
  unfolding note_transcript
  on_transcript text t s v =
      let s' : Session C = record s { last_transcript = take 127 text } in
      let w : IsDriven d s' = record {
        calls = v.calls;
        deb_is = v.deb_is;
        in_step = record { agree = (v.in_step).agree };
        text_fits = omega (arith, length-take 127 text);
      } in
      on_intent (intent_match s.cfg.intents (some text)) t s' w
        (note_intent-InStep _ t s' w.in_step)

  pub IsDriven-IsKept : IsKept (λ (s : Session C). IsDriven d s)
  IsDriven-IsKept = record {
    on_ctx = λ s c v. record {
      calls = v.calls;
      deb_is = v.deb_is;
      in_step = record { agree = (v.in_step).agree };
      text_fits = v.text_fits;
    };
    on_energy = on_energy;
    on_text = on_transcript;
  }

  -- A tick is one more call, and its answer is that of the timer.
  pub session_tick-IsDriven :
      (s : Session C) (t : ℕ) → IsDriven d s → IsDriven d (session_tick s t).1
  unfolding session_tick step debounce_should_cut
  session_tick-IsDriven s t v =
      one_more s (session_tick s t).1 (tick t) v refl
        (record { agree = λ h. ground (arith, (v.in_step).agree) }) refl

-- A new session.
pub session_init-IsDriven :
    {C : Type 0} (stt : SttBackend C) (cfg : SessionCfg) (c : C) (t : ℕ)
    → IsDriven (debounce_init cfg.debounce t) (session_init stt cfg c t)
unfolding session_init run debounce_init
session_init-IsDriven stt cfg c t = record {
  calls = [];
  deb_is = refl;
  in_step = record { agree = λ h. refl };
  text_fits = omega arith;
}
