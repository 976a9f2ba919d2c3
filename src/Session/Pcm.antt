-- ===== src/Session/Pcm.antt =====
-- `session_on_pcm` of server/src/session.c: the loop over transcripts, and the counts of commands.
use esp32s3_inmp.Base.{
  subst, sym, ℕ, zero, suc, ◌/◌, ◌^◌, ◌≤◌, ◌<◌, ◌≡◌, ◌≢◌, refl, ap, ◌∙◌, Bytes, Option, none, some,
  arith, length, take, inl, inr, Option-cases,
}
use esp32s3_inmp.Intent.{IntentEntry, intent_match}
use esp32s3_inmp.Debounce.{cut, debounce_note_speech, debounce_note_command}
use esp32s3_inmp.Session.{
  SttBackend, Session, Energy, decode_le16, transcript_max, call_feed, note_energy, note_intent,
  note_transcript, drain, session_on_pcm,
}
use esp32s3_inmp.Session.Blocks.{FeedSplits, block_loop_lem}

-- The counts of commands of the session and of its debounce timer agree, while it is not cut.
pub record InStep {C : Type 0} (s : Session C) : Type 0 where
  pub agree : s.deb.state ≢ cut → s.deb.commands ≡ s.commands

-- A poll of a backend in a good state leaves it in one, and with fewer transcripts if it hands one out.
abbrev pub Drains :
    {C : Type 0} → (C → Type 0) → (C → ℕ) → Option (C → ℕ → Option Bytes × C) → Type 0
Drains good waits none = Unit {0}
Drains {C} good waits (some poll) =
    (c : C) (cap : ℕ)
    → good c
    → good (poll c cap).1
      × ((text : Bytes) → (poll c cap).0 ≡ some text → waits (poll c cap).1 < waits c)

module _ {C : Type 0} where
  pub note_intent-InStep :
      (m : Option IntentEntry) (t : ℕ) (s : Session C) → InStep s → InStep (note_intent m t s)
  unfolding note_intent debounce_note_command
  note_intent-InStep none t s v = v
  note_intent-InStep (some e) t s v = record { agree = λ h. ground (arith, v.agree) }

  pub note_transcript-InStep :
      (text : Bytes) (t : ℕ) (s : Session C) → InStep s → InStep (note_transcript text t s)
  unfolding note_transcript
  note_transcript-InStep text t s v =
      note_intent-InStep (intent_match s.cfg.intents (some text)) t
        (record s { last_transcript = take 127 text }) (record { agree = v.agree })

  pub note_energy-InStep :
      (e : Energy C) (t : ℕ) (s : Session C) → InStep s → InStep (note_energy e t s)
  unfolding note_energy debounce_note_speech
  note_energy-InStep e t s v = record { agree = λ h. ground (arith, v.agree) }

  note_intent-ctx :
      (m : Option IntentEntry) (t : ℕ) (s : Session C) → (note_intent m t s).ctx ≡ s.ctx
  unfolding note_intent
  note_intent-ctx none t s = refl
  note_intent-ctx (some e) t s = refl

  note_transcript-ctx :
      (text : Bytes) (t : ℕ) (s : Session C) → (note_transcript text t s).ctx ≡ s.ctx
  unfolding note_transcript
  note_transcript-ctx text t s =
      note_intent-ctx (intent_match s.cfg.intents (some text)) t
        (record s { last_transcript = take 127 text })

  note_energy-ctx : (e : Energy C) (t : ℕ) (s : Session C) → (note_energy e t s).ctx ≡ e.ctx
  unfolding note_energy
  note_energy-ctx e t s = ground arith

  drain_empty :
      (fuel : ℕ) (poll : C → ℕ → Option Bytes × C) (t : ℕ) (s : Session C)
      → (poll s.ctx transcript_max).0 ≡ none
      → drain (suc fuel) (some poll) t s ≡ some (record s { ctx = (poll s.ctx transcript_max).1 })
  unfolding drain
  drain_empty fuel poll t s e = rw (e, drain)

  drain_one :
      (fuel : ℕ) (poll : C → ℕ → Option Bytes × C) (t : ℕ) (s : Session C) (text : Bytes)
      → (poll s.ctx transcript_max).0 ≡ some text
      → drain (suc fuel) (some poll) t s
        ≡ drain fuel
            (some poll)
            t
            (note_transcript text t (record s { ctx = (poll s.ctx transcript_max).1 }))
  unfolding drain
  drain_one fuel poll t s text e = rw (e, drain)

-- What each update of a session by `session_on_pcm` keeps, it keeps.
pub record IsKept {C : Type 0} (Kept : Session C → Type 0) : Type 0 where
  pub on_ctx : (s : Session C) (c : C) → Kept s → Kept (record s { ctx = c })
  pub on_energy : (e : Energy C) (t : ℕ) (s : Session C) → Kept s → Kept (note_energy e t s)
  pub on_text : (text : Bytes) (t : ℕ) (s : Session C) → Kept s → Kept (note_transcript text t s)

module _ {C : Type 0} (Kept : Session C → Type 0) (k : IsKept Kept) where
  drain-Kept :
      (fuel : ℕ) (poll : Option (C → ℕ → Option Bytes × C)) (t : ℕ) (s : Session C)
      (good : C → Type 0) (waits : C → ℕ)
      → Drains good waits poll
      → good s.ctx
      → waits s.ctx < fuel
      → Kept s
      → (s' : Session C) × (drain fuel poll t s ≡ some s') × Kept s' × good s'.ctx
  unfolding drain
  drain-Kept zero poll t s good waits d g le v = absurd (omega arith)
  drain-Kept (suc fuel) none t s good waits d g le v = (s, refl, v, g)
  drain-Kept (suc fuel) (some poll) t s good waits d g le v =
      let ctx : C = (poll s.ctx transcript_max).1 in
      let polled : Session C = record s { ctx = ctx } in
      elim (Option-cases (poll s.ctx transcript_max).0) [
        | inl e ↦
            (polled, drain_empty fuel poll t s e, k.on_ctx s ctx v, (d s.ctx transcript_max g).0)
        | inr (text, e) ↦
            let (s', r, v', g') =
              drain-Kept fuel (some poll) t (note_transcript text t polled) good waits d
                (subst good (sym (note_transcript-ctx text t polled)) (d s.ctx transcript_max g).0)
                (omega (
                  arith,
                  (d s.ctx transcript_max g).1 text e,
                  ap waits (note_transcript-ctx text t polled),
                ))
                (k.on_text text t polled (k.on_ctx s ctx v)) in
            (s', drain_one fuel poll t s text e ∙ r, v', g')
      ]

  -- Handling a payload returns, keeps what each update keeps, and leaves the backend in a good state.
  pub session_on_pcm-Kept :
      (stt : SttBackend C) (fuel : ℕ) (s : Session C) (bytes : Bytes) (t : ℕ) (good : C → Type 0)
      (waits : C → ℕ)
      → FeedSplits stt.feed
      → Drains good waits stt.poll
      → good (call_feed stt.feed s.ctx (decode_le16 (length bytes / 2) bytes))
      → length bytes < 2 ^ 64
      → length bytes ≤ fuel
      → waits (call_feed stt.feed s.ctx (decode_le16 (length bytes / 2) bytes)) < fuel
      → Kept s
      → (s' : Session C) × (session_on_pcm stt fuel s bytes t ≡ some s') × Kept s' × good s'.ctx
  unfolding session_on_pcm
  session_on_pcm-Kept stt fuel s bytes t good waits f d g small le le' v =
      let start : Energy C = record { energy_sum = 0; energy_n = 0; ctx = s.ctx } in
      let (out, r, n, heard) =
        block_loop_lem stt fuel (length bytes / 2) bytes start f (omega arith) (omega arith)
          (omega arith) in
      let (s', r', v', g') =
        drain-Kept fuel stt.poll t (note_energy out t s) good waits d
          (subst good (sym (note_energy-ctx out t s ∙ heard)) g)
          (omega (arith, ap waits (note_energy-ctx out t s), ap waits heard))
          (k.on_energy out t s v) in
      (s', rw (r, session_on_pcm) r', v', g')

pub InStep-IsKept : {C : Type 0} → IsKept (λ (s : Session C). InStep s)
InStep-IsKept = record {
  on_ctx = λ s c v. record { agree = v.agree };
  on_energy = note_energy-InStep;
  on_text = note_transcript-InStep;
}

-- Handling a payload returns, with fuel for its samples and for the transcripts that wait: the loop over
-- transcripts ends because each one that the backend hands out leaves it with fewer. The session's count
-- of commands and that of its debounce timer still agree, while the session is not cut. The backend must
-- not mind how its samples are cut into blocks, and must be in a good state once it has been fed.
pub session_on_pcm_lem :
    {C : Type 0} (stt : SttBackend C) (fuel : ℕ) (s : Session C) (bytes : Bytes) (t : ℕ)
    (good : C → Type 0) (waits : C → ℕ)
    → FeedSplits stt.feed
    → Drains good waits stt.poll
    → good (call_feed stt.feed s.ctx (decode_le16 (length bytes / 2) bytes))
    → length bytes < 2 ^ 64
    → length bytes ≤ fuel
    → waits (call_feed stt.feed s.ctx (decode_le16 (length bytes / 2) bytes)) < fuel
    → InStep s
    → (s' : Session C) × (session_on_pcm stt fuel s bytes t ≡ some s') × InStep s'
session_on_pcm_lem stt fuel s bytes t good waits f d g small le le' v =
    let (s', r, v', g') =
      session_on_pcm-Kept InStep InStep-IsKept stt fuel s bytes t good waits f d g small le le' v in
    (s', r, v')
