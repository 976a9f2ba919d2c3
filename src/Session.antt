-- ===== src/Session.antt =====
-- server/src/session.c: from PCM bytes to the decision to cut.
-- The speech-to-text backend is `stt_backend_t`: three optional callbacks over the backend's context `C`,
-- parameters of the model. A decoded sample is a signed integer. Sums are `uint64_t`, `nbytes` a `size_t` of 64
-- bits. `commands` is an `int`, exact below 2^31. The copies that `strncpy` makes are cut to 127 bytes.
pub mod Decode
pub mod Blocks
pub mod Pcm
pub mod Driven
pub mod Backend
use esp32s3_inmp.Base.{
  ℕ, zero, suc, ◌+◌, ◌-◌, ◌*◌, ◌/◌, ◌%◌, ◌^◌, Bool, true, false, List, Bytes, [], ◌∷◌, ◌++◌, Option,
  none, some, if◌then◌else◌, ◌==◌, ltb, leb, length, take, drop, u32,
}
use esp32s3_inmp.Base.{ℤ, pos, negsuc}
use esp32s3_inmp.Vad.{VadCfg, vad_frame_energy}
use esp32s3_inmp.Intent.{IntentEntry, IntentTable, intent_match}
use esp32s3_inmp.Debounce.{
  Debounce, DebounceCfg, CutReason, debounce_init, debounce_note_speech, debounce_note_command,
  debounce_should_cut,
}
use esp32s3_inmp.HttpIngest.Line.{c_str}

abbrev pub transcript_max : ℕ
transcript_max = 128

abbrev pub decode_block : ℕ
decode_block = 256

pub record SttBackend (C : Type 0) : Type 0 where
  pub reset : Option (C → C)
  pub feed : Option (C → List ℤ → C)
  pub poll : Option (C → ℕ → Option Bytes × C)

pub record SessionCfg : Type 0 where
  pub intents : Option IntentTable
  pub vad : VadCfg
  pub debounce : DebounceCfg

pub record Session (C : Type 0) : Type 0 where
  pub cfg : SessionCfg
  pub ctx : C
  pub deb : Debounce
  pub last_transcript : Bytes
  pub last_intent : Option ℕ
  pub last_intent_name : Option Bytes
  pub commands : ℕ

-- Two bytes, low byte first, as an `int16_t`.
unfoldable pub sample_of : ℕ → ℕ → ℤ
sample_of lo hi = let w = lo + 256 * hi in if ltb w (2 ^ 15) then pos w else negsuc (2 ^ 16 - 1 - w)

-- `decode_le16`: `count` samples.
unfoldable pub decode_le16 : ℕ → Bytes → List ℤ
unfolding sample_of
decode_le16 (suc count) (lo ∷ hi ∷ bytes) = sample_of lo hi ∷ decode_le16 count bytes
decode_le16 _ _ = []

-- The running values of the loop over blocks.
pub record Energy (C : Type 0) : Type 0 where
  pub energy_sum : ℕ
  pub energy_n : ℕ
  pub ctx : C

abbrev pub call_feed : {C : Type 0} → Option (C → List ℤ → C) → C → List ℤ → C
call_feed none c block = c
call_feed (some f) c block = f c block

abbrev pub call_reset : {C : Type 0} → Option (C → C) → C → C
call_reset none c = c
call_reset (some f) c = f c

module _ {C : Type 0} (stt : SttBackend C) where
  unfoldable pub session_init : SessionCfg → C → ℕ → Session C
  session_init cfg ctx now_ms = record {
    cfg = cfg;
    ctx = call_reset stt.reset ctx;
    deb = debounce_init cfg.debounce now_ms;
    last_transcript = [];
    last_intent = none;
    last_intent_name = none;
    commands = 0;
  }

  -- One block of the loop.
  unfoldable pub block_step : Energy C → List ℤ → Energy C
  block_step e block = record {
    energy_sum = (e.energy_sum + vad_frame_energy block * length block) % 2 ^ 64;
    energy_n = (e.energy_n + length block) % 2 ^ 64;
    ctx = call_feed stt.feed e.ctx block;
  }

  -- The loop over blocks of at most 256 samples, on the `left` samples in the bytes that remain; `none`
  -- means that the fuel ran out.
  unfoldable pub block_loop : ℕ → ℕ → Bytes → Energy C → Option (Energy C)
  unfolding decode_le16 block_step
  block_loop fuel zero bytes e = some e
  block_loop zero (suc left) bytes e = none
  block_loop (suc fuel) (suc left) bytes e =
      let n : ℕ = if ltb decode_block (suc left) then decode_block else suc left in
      block_loop fuel (suc left - n) (drop (2 * n) bytes) (block_step e (decode_le16 n bytes))

module _ {C : Type 0} where
  -- The voice-activity test behind the loop.
  unfoldable pub note_energy : Energy C → ℕ → Session C → Session C
  note_energy e now_ms s =
      let mean = u32 (e.energy_sum / e.energy_n) in
      if ltb 0 e.energy_n
      then if ltb s.cfg.vad.energy_thresh mean
        then record s { ctx = e.ctx; deb = debounce_note_speech s.deb now_ms }
        else record s { ctx = e.ctx }
      else record s { ctx = e.ctx }

  -- The body of the loop over transcripts.
  unfoldable pub note_intent : Option IntentEntry → ℕ → Session C → Session C
  note_intent none now_ms s = s
  note_intent (some e) now_ms s = record s {
    last_intent = some e.id;
    last_intent_name = some e.name;
    commands = s.commands + 1;
    deb = debounce_note_command s.deb now_ms;
  }

  unfoldable pub note_transcript : Bytes → ℕ → Session C → Session C
  unfolding note_intent
  note_transcript transcript now_ms s =
      note_intent (intent_match s.cfg.intents (some transcript)) now_ms
        (record s { last_transcript = take (transcript_max - 1) transcript })

  -- `while (poll && poll(…))`, with fuel; `none` means that the fuel ran out.
  unfoldable pub drain : ℕ → Option (C → ℕ → Option Bytes × C) → ℕ → Session C → Option (Session C)
  unfolding note_transcript
  drain zero poll now_ms s = none
  drain (suc fuel) none now_ms s = some s
  drain (suc fuel) (some poll) now_ms s =
      let (out, ctx) = poll s.ctx transcript_max in
      elim out [
        | none ↦ some (record s { ctx = ctx })
        | some text ↦
            drain fuel (some poll) now_ms (note_transcript text now_ms (record s { ctx = ctx }))
      ]

module _ {C : Type 0} (stt : SttBackend C) where
  unfoldable pub session_on_pcm : ℕ → Session C → Bytes → ℕ → Option (Session C)
  unfolding block_loop note_energy drain
  session_on_pcm fuel s bytes now_ms =
      elim (block_loop stt fuel (length bytes / 2) bytes
        (record { energy_sum = 0; energy_n = 0; ctx = s.ctx })) [
          | none ↦ none
          | some e ↦ drain fuel stt.poll now_ms (note_energy e now_ms s)
        ]

module _ {C : Type 0} where
  unfoldable pub session_tick : Session C → ℕ → Bool × Session C
  session_tick s now_ms =
      let (cut, deb) = debounce_should_cut s.deb now_ms in (cut, record s { deb = deb })

  unfoldable pub session_cut_reason : Session C → CutReason
  session_cut_reason s = s.deb.reason
