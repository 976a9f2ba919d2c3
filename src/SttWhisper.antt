-- ===== src/SttWhisper.antt =====
-- server/src/stt_whisper.c, as it is built with SIMONSAYS_WITH_WHISPER: speech recognition by whisper.cpp.
-- Utterances are cut by energy as in the stub, and the samples of one are kept for the library. The library
-- is a parameter: `X` is the state behind its context, `whisper_full` the texts of the segments (a C
-- string, or NULL) or an error. A `float` is a value of a type `F`, and the scaling of a sample a function
-- into it. `realloc` is given the new capacity and succeeds or not. A transcript is its bytes, without the
-- NUL; `acc_len` is the length of the list. The capacities stay below 2^36, so they are exact.
pub mod Text
pub mod Backend
use esp32s3_inmp.Base.{
  ℤ, pos, negsuc, ℕ, zero, suc, ◌+◌, ◌-◌, ◌*◌, ◌%◌, ◌^◌, Bool, true, false, ◌||◌, List, Bytes, [],
  ◌∷◌, ◌++◌, Option, none, some, codes, if◌then◌else◌, ◌==◌, sub64, ltb, leb, length, take, get_or,
  blit, replicate,
}
use esp32s3_inmp.Vad.{magnitude}
use esp32s3_inmp.Session.{SttBackend}

abbrev pub max_pending : ℕ
max_pending = 4

abbrev pub transcript_max : ℕ
transcript_max = 256

pub record SttWhisper (F X : Type 0) : Type 0 where
  pub wctx : Option X
  pub sample_rate : ℕ
  pub n_threads : ℕ
  pub language : Option Bytes
  pub energy_thresh : ℕ
  pub hang_samples : ℕ
  pub min_speech_samples : ℕ
  pub in_speech : Bool
  pub speech_run : ℕ
  pub silence_run : ℕ
  pub acc : List F
  pub acc_cap : ℕ
  pub max_samples : ℕ
  pub pending : List Bytes
  pub pend_head : ℕ
  pub pend_tail : ℕ

-- `size_t` increment.
abbrev pub incr : ℕ → ℕ
incr n = (n + 1) % 2 ^ 64

-- The text behind its blanks, tabs and line feeds.
unfoldable pub trim : Bytes → Bytes
trim [] = []
trim (c ∷ text) = if c == 32 || (c == 9 || c == 10) then trim text else c ∷ text

-- The loop over segments that fills `joined`; the first argument is what is in it.
unfoldable pub join_segments : Bytes → List (Option Bytes) → Bytes
join_segments joined [] = joined
join_segments joined (none ∷ segs) = join_segments joined segs
join_segments joined (some seg ∷ segs) =
    let sl : ℕ =
      if leb transcript_max (length joined + length seg)
      then transcript_max - 1 - length joined
      else length seg in
    let rest = join_segments (joined ++ take sl seg) segs in
    if leb (transcript_max - 1) (length (joined ++ take sl seg))
    then joined ++ take sl seg
    else rest

module _ {F X : Type 0} where
  -- The text once it is trimmed.
  unfoldable pub push_trimmed : SttWhisper F X → Bytes → SttWhisper F X
  push_trimmed s [] = s
  push_trimmed s (c ∷ text) =
      let next = (s.pend_tail + 1) % max_pending in
      if next == s.pend_head then s else record s {
        pending = blit s.pending s.pend_tail (take (transcript_max - 1) (c ∷ text) ∷ []);
        pend_tail = next;
      }

  unfoldable pub push_pending : SttWhisper F X → Bytes → SttWhisper F X
  unfolding push_trimmed trim
  push_pending s text = push_trimmed s (trim text)

  unfoldable pub reset_utterance : SttWhisper F X → SttWhisper F X
  reset_utterance s = record s { acc = []; in_speech = false; speech_run = 0; silence_run = 0 }

  unfoldable pub whisper_reset : SttWhisper F X → SttWhisper F X
  unfolding reset_utterance
  whisper_reset s = record (reset_utterance s) { pend_head = 0; pend_tail = 0 }

  -- `none` is the answer 0; the transcript is what is written to `out`, cut to `cap - 1` bytes.
  unfoldable pub whisper_poll : SttWhisper F X → ℕ → Option Bytes × SttWhisper F X
  whisper_poll s cap =
      if s.pend_head == s.pend_tail
      then (none, s)
      else (let src = get_or s.pending s.pend_head [] in
          (
            some (if leb cap (length src) then take (sub64 cap 1) src else src),
            record s { pend_head = (s.pend_head + 1) % max_pending },
          ))

module _ {F X : Type 0} (scaled : ℤ → F) (realloc : ℕ → Bool)
    (whisper_full : X → ℕ → Option Bytes → List F → Option (List (Option Bytes)) × X) where
  -- What follows the call of the library.
  unfoldable pub transcribed : SttWhisper F X → Option (List (Option Bytes)) × X → SttWhisper F X
  unfolding push_pending join_segments
  transcribed s (none, x) = record s { wctx = some x }
  transcribed s (some segs, x) = push_pending (record s { wctx = some x }) (join_segments [] segs)

  unfoldable pub transcribe_with : SttWhisper F X → Option X → SttWhisper F X
  unfolding transcribed
  transcribe_with s none = s
  transcribe_with s (some x) =
      if length s.acc == 0
      then s
      else transcribed s
          (whisper_full x (if s.n_threads == 0 then 1 else s.n_threads) s.language s.acc)

  unfoldable pub transcribe : SttWhisper F X → SttWhisper F X
  unfolding transcribe_with
  transcribe s = transcribe_with s s.wctx

  unfoldable pub end_utterance : SttWhisper F X → SttWhisper F X
  unfolding transcribe reset_utterance
  end_utterance s =
      let t : SttWhisper F X = if leb s.min_speech_samples s.speech_run then transcribe s else s in
      reset_utterance t

  -- The capacity that a full accumulator grows to.
  unfoldable pub grown : SttWhisper F X → ℕ
  grown s =
      let cap : ℕ = if s.acc_cap == 0 then 4096 else s.acc_cap * 2 in
      if ltb s.max_samples cap then s.max_samples else cap

  unfoldable pub acc_push : SttWhisper F X → F → SttWhisper F X
  unfolding grown
  acc_push s v =
      if leb s.max_samples (length s.acc)
      then s
      else if length s.acc == s.acc_cap
      then (if realloc (grown s)
          then record s { acc = s.acc ++ (v ∷ []); acc_cap = grown s }
          else s)
      else record s { acc = s.acc ++ (v ∷ []) }

  -- The test of the energy, once the sample is kept.
  unfoldable pub note_sample : SttWhisper F X → ℤ → SttWhisper F X
  unfolding end_utterance
  note_sample s v =
      if ltb s.energy_thresh (magnitude v)
      then record s { in_speech = true; speech_run = incr s.speech_run; silence_run = 0 }
      else if s.in_speech
      then (let t : SttWhisper F X = record s { silence_run = incr s.silence_run } in
          if leb s.hang_samples t.silence_run then end_utterance t else t)
      else s

  unfoldable pub whisper_feed : SttWhisper F X → List ℤ → SttWhisper F X
  unfolding note_sample acc_push
  whisper_feed s [] = s
  whisper_feed s (v ∷ pcm) = whisper_feed (note_sample (acc_push s (scaled v)) v) pcm

  abbrev pub stt_whisper_backend : SttBackend (SttWhisper F X)
  stt_whisper_backend = record {
    reset = some whisper_reset;
    feed = some whisper_feed;
    poll = some whisper_poll;
  }

  -- The sampling rate that is used: one that is not positive stands for 16000.
  abbrev pub rate_of : ℤ → ℕ
  rate_of (pos (suc n)) = suc n
  rate_of _ = 16000

  -- The context is `none` if the model cannot be loaded; the result is then -1.
  unfoldable pub stt_whisper_init : Option X → ℤ → ℕ → ℕ → ℕ → SttWhisper F X
  stt_whisper_init wctx sample_rate energy_thresh hang_samples min_speech_samples = record {
    wctx = wctx;
    sample_rate = rate_of sample_rate;
    n_threads = 4;
    language = some (codes "en");
    energy_thresh = energy_thresh;
    hang_samples = if hang_samples == 0 then 1 else hang_samples;
    min_speech_samples = min_speech_samples;
    in_speech = false;
    speech_run = 0;
    silence_run = 0;
    acc = [];
    acc_cap = 0;
    max_samples = rate_of sample_rate * 30;
    pending = replicate max_pending [];
    pend_head = 0;
    pend_tail = 0;
  }
