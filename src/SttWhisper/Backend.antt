-- ===== src/SttWhisper/Backend.antt =====
-- The recogniser as a backend of the session, and the bounds of its buffers.
use esp32s3_inmp.Base.{
  ℤ, ℕ, zero, suc, ◌+◌, ◌-◌, ◌%◌, ◌≤◌, ◌<◌, ◌≡◌, refl, ap, Bool, true, false, List, Bytes, [], ◌∷◌,
  ◌++◌, Option, none, some, if◌then◌else◌, ◌==◌, ltb, leb, length, length-append, length-blit,
  length-take, take, blit, arith, Bool-cases, inl, inr,
}
use esp32s3_inmp.Vad.{magnitude}
use esp32s3_inmp.Session.Pcm.{Drains}
use esp32s3_inmp.Session.Backend.{IsBackend}
use esp32s3_inmp.SttWhisper.{
  SttWhisper, max_pending, transcript_max, push_trimmed, push_pending, trim, reset_utterance,
  whisper_reset, whisper_poll, transcribed, transcribe_with, transcribe, end_utterance, grown,
  acc_push, note_sample, whisper_feed, stt_whisper_backend, stt_whisper_init, join_segments, incr,
}

abbrev AllFit : List Bytes → Type 0
AllFit [] = Unit {0}
AllFit (text ∷ texts) = (length text < transcript_max) × AllFit texts

-- The buffers hold what is in them: the samples fit the memory that was allocated, which is no more than
-- the cap on an utterance; each transcript fits its slot with the NUL; the indices stay in the ring.
pub record IsValid {F X : Type 0} (s : SttWhisper F X) : Type 0 where
  pub samples_in : length s.acc ≤ s.acc_cap
  pub cap_in : s.acc_cap ≤ s.max_samples
  pub slots : length s.pending ≡ max_pending
  pub texts_fit : AllFit s.pending
  pub head_in : s.pend_head < max_pending
  pub tail_in : s.pend_tail < max_pending

blit_none : (texts : List Bytes) → blit texts 0 [] ≡ texts
blit_none [] = refl
blit_none (t ∷ texts) = refl

AllFit-blit :
    (texts : List Bytes) (at : ℕ) (text : Bytes)
    → AllFit texts
    → length text < transcript_max
    → AllFit (blit texts at (text ∷ []))
AllFit-blit [] at text a h = tt
AllFit-blit (t ∷ texts) zero text (b, a) h = (h, rw (blit_none texts) a)
AllFit-blit (t ∷ texts) (suc at) text (b, a) h = (b, AllFit-blit texts at text a h)

module _ {F X : Type 0} where
  push_trimmed-IsValid :
      (s : SttWhisper F X) (text : Bytes) → IsValid s → IsValid (push_trimmed s text)
  unfolding push_trimmed
  push_trimmed-IsValid s [] v = v
  push_trimmed-IsValid s (c ∷ text) v =
      let cut = take (transcript_max - 1) (c ∷ text) in
      ground (
        arith,
        length-blit s.pending s.pend_tail (cut ∷ []),
        AllFit-blit s.pending s.pend_tail cut v.texts_fit
            (omega (arith, length-take (transcript_max - 1) (c ∷ text))),
      )

  push_pending-IsValid :
      (s : SttWhisper F X) (text : Bytes) → IsValid s → IsValid (push_pending s text)
  unfolding push_pending
  push_pending-IsValid s text v = push_trimmed-IsValid s (trim text) v

  reset_utterance-IsValid : (s : SttWhisper F X) → IsValid s → IsValid (reset_utterance s)
  unfolding reset_utterance
  reset_utterance-IsValid s v = record {
    samples_in = omega arith;
    cap_in = v.cap_in;
    slots = v.slots;
    texts_fit = v.texts_fit;
    head_in = v.head_in;
    tail_in = v.tail_in;
  }

  whisper_reset-IsValid : (s : SttWhisper F X) → IsValid s → IsValid (whisper_reset s)
  unfolding whisper_reset reset_utterance
  whisper_reset-IsValid s v = record {
    samples_in = omega arith;
    cap_in = v.cap_in;
    slots = v.slots;
    texts_fit = v.texts_fit;
    head_in = omega arith;
    tail_in = omega arith;
  }

  -- Only the buffers matter.
  abbrev buffers : SttWhisper F X → List F × ℕ × ℕ × List Bytes × ℕ × ℕ
  buffers s = (s.acc, s.acc_cap, s.max_samples, s.pending, s.pend_head, s.pend_tail)

  same_buffers : (s t : SttWhisper F X) → IsValid s → buffers t ≡ buffers s → IsValid t
  same_buffers s t v e = record {
    samples_in = rw (ap (λ b. b.0) e, ap (λ b. b.1) e) v.samples_in;
    cap_in = rw (ap (λ b. b.1) e, ap (λ b. b.2) e) v.cap_in;
    slots = rw (ap (λ b. b.3) e) v.slots;
    texts_fit = rw (ap (λ b. b.3) e) v.texts_fit;
    head_in = rw (ap (λ b. b.4) e) v.head_in;
    tail_in = rw (ap (λ b. b.5) e) v.tail_in;
  }

  if_IsValid :
      (c : Bool) (s t : SttWhisper F X) → IsValid s → IsValid t → IsValid (if c then s else t)
  if_IsValid true s t v w = v
  if_IsValid false s t v w = w

-- How many transcripts wait in the ring.
abbrev waiting_in : {F X : Type 0} → SttWhisper F X → ℕ
waiting_in s = (s.pend_tail + max_pending - s.pend_head) % max_pending

module _ {F X : Type 0} (scaled : ℤ → F) (realloc : ℕ → Bool)
    (whisper_full : X → ℕ → Option Bytes → List F → Option (List (Option Bytes)) × X) where
  with_context-IsValid :
      (s : SttWhisper F X) (x : X) → IsValid s → IsValid (record s { wctx = some x })
  with_context-IsValid s x v = same_buffers s (record s { wctx = some x }) v refl

  transcribed-IsValid :
      (s : SttWhisper F X) (r : Option (List (Option Bytes)) × X)
      → IsValid s
      → IsValid (transcribed scaled realloc whisper_full s r)
  unfolding transcribed
  transcribed-IsValid s (none, x) v = with_context-IsValid s x v
  transcribed-IsValid s (some segs, x) v =
      push_pending-IsValid (record s { wctx = some x }) (join_segments [] segs)
        (with_context-IsValid s x v)

  transcribe_with-IsValid :
      (s : SttWhisper F X) (o : Option X)
      → IsValid s
      → IsValid (transcribe_with scaled realloc whisper_full s o)
  unfolding transcribe_with
  transcribe_with-IsValid s none v = v
  transcribe_with-IsValid s (some x) v = elim (Bool-cases (length s.acc == 0)) [
    | inl e ↦ rw e v
    | inr e ↦ rw e (
        transcribed-IsValid s
          (whisper_full x (if s.n_threads == 0 then 1 else s.n_threads) s.language s.acc) v)
  ]

  end_utterance-IsValid :
      (s : SttWhisper F X) → IsValid s → IsValid (end_utterance scaled realloc whisper_full s)
  unfolding end_utterance transcribe
  end_utterance-IsValid s v = reset_utterance-IsValid _ (
      if_IsValid (leb s.min_speech_samples s.speech_run) (transcribe scaled realloc whisper_full s)
        s (transcribe_with-IsValid s s.wctx v) v)

  acc_push-IsValid :
      (s : SttWhisper F X) (x : F) → IsValid s → IsValid (acc_push scaled realloc whisper_full s x)
  unfolding acc_push grown
  acc_push-IsValid s x v = ground (arith, length-append s.acc (x ∷ []))

  note_sample-IsValid :
      (s : SttWhisper F X) (x : ℤ)
      → IsValid s
      → IsValid (note_sample scaled realloc whisper_full s x)
  unfolding note_sample
  note_sample-IsValid s x v =
      let t : SttWhisper F X = record s { silence_run = incr s.silence_run } in
      let w : IsValid t = same_buffers s t v refl in
      if_IsValid (ltb s.energy_thresh (magnitude x)) _ _ (same_buffers s _ v refl) (
        if_IsValid s.in_speech _ _
          (if_IsValid (leb s.hang_samples t.silence_run)
            (end_utterance scaled realloc whisper_full t) t (end_utterance-IsValid t w) w)
          v)

  whisper_feed-IsValid :
      (s : SttWhisper F X) (pcm : List ℤ)
      → IsValid s
      → IsValid (whisper_feed scaled realloc whisper_full s pcm)
  unfolding whisper_feed
  whisper_feed-IsValid s [] v = v
  whisper_feed-IsValid s (x ∷ pcm) v =
      whisper_feed-IsValid
        (note_sample scaled realloc whisper_full (acc_push scaled realloc whisper_full s (scaled x))
          x)
        pcm (note_sample-IsValid _ x (acc_push-IsValid s (scaled x) v))

  whisper_feed-append :
      (s : SttWhisper F X) (xs ys : List ℤ)
      → whisper_feed scaled realloc whisper_full s (xs ++ ys)
        ≡ whisper_feed scaled realloc whisper_full
            (whisper_feed scaled realloc whisper_full s xs)
            ys
  unfolding whisper_feed
  whisper_feed-append s [] ys = refl
  whisper_feed-append s (x ∷ xs) ys =
      whisper_feed-append
        (note_sample scaled realloc whisper_full (acc_push scaled realloc whisper_full s (scaled x))
          x)
        xs ys

  whisper-Drains : Drains IsValid waiting_in (stt_whisper_backend scaled realloc whisper_full).poll
  unfolding whisper_poll
  whisper-Drains s cap v = (
    elim (Bool-cases (s.pend_head == s.pend_tail)) [
      | inl e ↦ simp e v
      | inr e ↦ simp e (record {
        samples_in = v.samples_in;
        cap_in = v.cap_in;
        slots = v.slots;
        texts_fit = v.texts_fit;
        head_in = omega arith;
        tail_in = v.tail_in;
      })
    ],
    λ text e. ground (arith, v.head_in, v.tail_in),
  )

  -- The recogniser obeys the laws of a backend, whatever the library answers and whether or not memory is
  -- there: it does not mind how the samples are cut into blocks, it runs out of transcripts, and its
  -- buffers hold what is in them at all times: the samples of an utterance fit the memory that was
  -- allocated, which never exceeds the cap, each transcript fits its slot, and the ring its four slots.
  pub whisper-IsBackend :
      IsBackend (stt_whisper_backend scaled realloc whisper_full) IsValid max_pending
  unfolding whisper_feed
  whisper-IsBackend = record {
    waits = waiting_in;
    splits = (λ s. refl, whisper_feed-append);
    drains = whisper-Drains;
    reset_good = whisper_reset-IsValid;
    fed_good = whisper_feed-IsValid;
    few = λ s v. omega arith;
  }

  -- A new recogniser is in a good state, with or without a model.
  pub stt_whisper_init-IsValid :
      (wctx : Option X) (rate : ℤ) (thresh hang shortest : ℕ)
      → IsValid (stt_whisper_init scaled realloc whisper_full wctx rate thresh hang shortest)
  unfolding stt_whisper_init
  stt_whisper_init-IsValid wctx rate thresh hang shortest = record {
    samples_in = omega arith;
    cap_in = omega arith;
    slots = refl;
    texts_fit = omega arith;
    head_in = omega arith;
    tail_in = omega arith;
  }
