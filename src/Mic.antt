-- ===== src/Mic.antt =====
-- firmware/port/esp/mic_i2s.c: reading samples from the microphone, and the source of PCM that stops at
-- the end of speech. The I2S driver is a parameter, with its state `W`: `i2s_channel_read` hands out the
-- bytes that it has read (none of them, or an error), given how many it may read at most. An `int32_t` is
-- a signed integer, the device is little-endian. `s_rx` is whether the channel runs.
-- Starting and stopping the channel is the vendor's driver alone, and is not modelled.
pub mod Source
use esp32s3_inmp.Base.{
  ℤ, pos, negsuc, ℕ, zero, suc, ◌+◌, ◌-◌, ◌*◌, ◌/◌, ◌^◌, ◌≤◌, ◌<◌, ◌≡◌, Bool, true, false, ◌&&◌,
  Bytes, List, [], ◌∷◌, ◌++◌, Option, none, some, u32, min, ltb, leb, ◌==◌, if◌then◌else◌, length,
  map, arith,
}
use mathlib.Core.Logic.{dite}
use mathlib.Core.WellFounded.{Acc}
use native.Mathlib.Decide.{dec_lt}
use esp32s3_inmp.Base.Words.{to_int, nat_acc}
use esp32s3_inmp.Vad.{energy_sum}
use esp32s3_inmp.Session.Decode.{encode}
use esp32s3_inmp.StreamClient.{PcmSource}

-- A 32-bit slot, low byte first.
unfoldable pub words : Bytes → List ℤ
words (a ∷ b ∷ c ∷ d ∷ bytes) = to_int (a + 2 ^ 8 * b + 2 ^ 16 * c + 2 ^ 24 * d) ∷ words bytes
words _ = []

-- `v >> 16`, which rounds down.
unfoldable pub shift_right16 : ℤ → ℤ
shift_right16 (pos n) = pos (n / 2 ^ 16)
shift_right16 (negsuc n) = negsuc (n / 2 ^ 16)

-- `v << k` on the 32 bits of a word.
unfoldable pub shift_left : ℕ → ℤ → ℤ
shift_left k (pos n) = to_int (u32 (n * 2 ^ k))
shift_left k (negsuc n) = to_int (u32 (2 ^ 32 - u32 (suc n * 2 ^ k)))

unfoldable pub clamp16 : ℤ → ℤ
clamp16 (pos n) = if ltb 32767 n then pos 32767 else pos n
clamp16 (negsuc n) = if ltb 32767 n then negsuc 32767 else negsuc n

-- The body of the loop over the slots that were read.
unfoldable pub slot_sample : ℕ → ℤ → ℤ
unfolding clamp16 shift_left shift_right16
slot_sample gain_shift raw = clamp16 (shift_left gain_shift (shift_right16 raw))

-- The microphone: the driver, and the statics `s_rx` and `s_gain_shift`.
pub record Mic (W : Type 0) : Type 0 where
  pub i2s_channel_read : W → ℕ → ℕ → Option Bytes × W
  pub s_rx : Bool
  pub s_gain_shift : ℕ

-- A full round leaves fewer samples.
fewer : (left got : ℕ) → 0 < left → ¬ (got < min 128 left) → left - got < left
fewer left got more all = omega arith

module _ {W : Type 0} (m : Mic W) (timeout_ms : ℕ) where
  -- What follows a read of slots: a round that reads fewer than it wants is the last; no bytes at all are
  -- such a round too. `again` is the loop on fewer samples.
  unfoldable pub after_read :
      (left : ℕ) → 0 < left → ((k : ℕ) → k < left → W → List ℤ × W) → Option Bytes × W → List ℤ × W
  unfolding words slot_sample fewer
  after_read left more again (none, w) = ([], w)
  after_read left more again (some bytes, w) =
      let out : List ℤ = map (slot_sample m.s_gain_shift) (words bytes) in
      dite (dec_lt (length bytes / 4) (min 128 left)) (λ few. (out, w))
        (λ all.
          let (rest, w') =
            again (left - length bytes / 4) (fewer left (length bytes / 4) more all) w in
          (out ++ rest, w'))

  -- The loop of `mic_i2s_read`, on the samples that are left.
  unfoldable pub read_acc : (left : ℕ) → W → Acc ◌<◌ left → List ℤ × W
  unfolding after_read
  read_acc left w (Acc.intro _ smaller) =
      dite (dec_lt 0 left)
        (λ more.
          after_read left more (λ k lt w'. read_acc k w' (smaller k lt))
            (m.i2s_channel_read w (min 128 left * 4) timeout_ms))
        (λ done. ([], w))

  unfoldable pub mic_i2s_read : ℕ → W → List ℤ × W
  unfolding read_acc nat_acc
  mic_i2s_read max_samples w =
      if m.s_rx then read_acc max_samples w (nat_acc max_samples) else ([], w)

unfoldable pub mic_frame_energy : List ℤ → ℕ
unfolding energy_sum
mic_frame_energy pcm = if length pcm == 0 then 0 else u32 (energy_sum 0 pcm / length pcm)

pub record MicSource : Type 0 where
  pub energy_thresh : ℕ
  pub hang_frames : ℕ
  pub max_frames : ℕ
  pub silence_run : ℕ
  pub total_frames : ℕ
  pub speech_seen : Bool
  pub read_timeout_ms : ℕ

unfoldable pub mic_source_init : ℕ → ℕ → ℕ → MicSource
mic_source_init energy_thresh hang_frames max_frames = record {
  energy_thresh = energy_thresh;
  hang_frames = hang_frames;
  max_frames = max_frames;
  silence_run = 0;
  total_frames = 0;
  speech_seen = false;
  read_timeout_ms = 200;
}

-- The counters behind a frame of that energy.
unfoldable pub note_frame : MicSource → ℕ → MicSource
note_frame s energy =
    let t : MicSource =
      if leb s.energy_thresh energy
      then record s { speech_seen = true; silence_run = 0 }
      else record s { silence_run = u32 (s.silence_run + 1) } in
    record t { total_frames = u32 (t.total_frames + 1) }

-- The two tests that end the stream.
unfoldable pub is_over : MicSource → Bool
is_over s =
    if leb s.max_frames s.total_frames
    then true
    else s.speech_seen && leb s.hang_frames s.silence_run

-- What follows a read of samples: the bytes that go out, none at the end.
unfoldable pub frame_read : MicSource → List ℤ → Bytes × MicSource
unfolding mic_frame_energy note_frame is_over
frame_read s [] = ([], s)
frame_read s (x ∷ pcm) =
    let s' : MicSource = note_frame s (mic_frame_energy (x ∷ pcm)) in
    if is_over s' then ([], s') else (encode (x ∷ pcm), s')

module _ {W : Type 0} (m : Mic W) where
  unfoldable pub mic_src_read : MicSource × W → ℕ → Bytes × (MicSource × W)
  unfolding mic_i2s_read frame_read
  mic_src_read (s, w) cap =
      if cap / 2 == 0
      then ([], (s, w))
      else (let (pcm, w') = mic_i2s_read m s.read_timeout_ms (cap / 2) w in
          let (out, s') = frame_read s pcm in (out, (s', w')))

  abbrev pub mic_pcm_source : PcmSource (MicSource × W)
  mic_pcm_source = record { read = mic_src_read }
