-- ===== src/SttStub.antt =====
-- server/src/stt_stub.c: the scripted stand-in for speech recognition. Utterances are cut by energy, and
-- each utterance that is long enough emits the next script. Finished transcripts wait in a ring of four
-- slots. `size_t` has the 64 bits of the server. A transcript is its bytes, without the NUL.
pub mod Ring
pub mod Backend
use esp32s3_inmp.Base.{
  ℕ, ◌+◌, ◌-◌, ◌%◌, ◌^◌, Bool, true, false, ◌&&◌, List, Bytes, [], ◌∷◌, Option, none, some,
  if◌then◌else◌, ◌==◌, sub64, ltb, leb, length, take, get_or, blit, replicate,
}
use esp32s3_inmp.Base.{ℤ}
use esp32s3_inmp.Vad.{magnitude}

abbrev pub max_pending : ℕ
max_pending = 4

abbrev pub transcript_max : ℕ
transcript_max = 128

pub record SttStub : Type 0 where
  pub energy_thresh : ℕ
  pub hang_samples : ℕ
  pub min_speech_samples : ℕ
  pub scripts : List Bytes
  pub next_script : ℕ
  pub in_speech : Bool
  pub speech_run : ℕ
  pub silence_run : ℕ
  pub pending : List Bytes
  pub pend_head : ℕ
  pub pend_tail : ℕ

-- `size_t` increment.
abbrev pub incr : ℕ → ℕ
incr n = (n + 1) % 2 ^ 64

unfoldable pub push_pending : SttStub → Bytes → SttStub
push_pending s text =
    let next = (s.pend_tail + 1) % max_pending in
    if next == s.pend_head then s else record s {
      pending = blit s.pending s.pend_tail (take (transcript_max - 1) text ∷ []);
      pend_tail = next;
    }

-- The utterance is over: a script if it was long enough and one is left, then the runs start anew.
unfoldable pub end_utterance : SttStub → SttStub
unfolding push_pending
end_utterance s =
    let t : SttStub =
      if leb s.min_speech_samples s.speech_run && ltb s.next_script (length s.scripts)
      then push_pending (record s { next_script = incr s.next_script })
          (get_or s.scripts s.next_script [])
      else s in
    record t { in_speech = false; speech_run = 0; silence_run = 0 }

unfoldable pub stub_reset : SttStub → SttStub
stub_reset s = record s {
  next_script = 0;
  in_speech = false;
  speech_run = 0;
  silence_run = 0;
  pend_head = 0;
  pend_tail = 0;
}

-- One round of the loop of `stub_feed`.
unfoldable pub feed_sample : SttStub → ℤ → SttStub
feed_sample s v =
    if ltb s.energy_thresh (magnitude v)
    then record s { in_speech = true; speech_run = incr s.speech_run; silence_run = 0 }
    else if s.in_speech
    then (let t : SttStub = record s { silence_run = incr s.silence_run } in
        if leb s.hang_samples t.silence_run then end_utterance t else t)
    else s

unfoldable pub stub_feed : SttStub → List ℤ → SttStub
stub_feed s [] = s
stub_feed s (v ∷ pcm) = stub_feed (feed_sample s v) pcm

-- `none` is the answer 0; the transcript is what is written to `out`, cut to `cap - 1` bytes; with `cap`
-- 0 the length wraps, and the copy leaves the buffer.
unfoldable pub stub_poll : SttStub → ℕ → Option Bytes × SttStub
stub_poll s cap =
    if s.pend_head == s.pend_tail
    then (none, s)
    else let src = get_or s.pending s.pend_head [] in
      (
        some (if leb cap (length src) then take (sub64 cap 1) src else src),
        record s { pend_head = (s.pend_head + 1) % max_pending },
      )

unfoldable pub stt_stub_init : List Bytes → ℕ → ℕ → ℕ → SttStub
stt_stub_init scripts energy_thresh hang_samples min_speech_samples = record {
  energy_thresh = energy_thresh;
  hang_samples = if hang_samples == 0 then 1 else hang_samples;
  min_speech_samples = min_speech_samples;
  scripts = scripts;
  next_script = 0;
  in_speech = false;
  speech_run = 0;
  silence_run = 0;
  pending = replicate max_pending [];
  pend_head = 0;
  pend_tail = 0;
}
