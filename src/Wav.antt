-- ===== src/Wav.antt =====
-- tools/host/wav.c: the reader and the writer of WAV files.
-- A file is its bytes, and an open one the bytes from its position on: `fseek` behind the end leaves none. The
-- host is little-endian, so that the bytes of `data` are the samples, low byte first; `|` of shifted
-- bytes is their sum. Whether `malloc` succeeds is a parameter. The results of `fwrite` are not looked at.
pub mod Bound
pub mod RoundTrip
use esp32s3_inmp.Base.{
  ℤ, pos, negsuc, ℕ, zero, suc, ◌+◌, ◌-◌, ◌*◌, ◌/◌, ◌%◌, ◌^◌, Bool, true, false, ◌&&◌, ◌||◌, not,
  Bytes, [], ◌∷◌, ◌++◌, List, Option, none, some, codes, u32, length, take, drop, ltb, ◌==◌,
  if◌then◌else◌,
}
use esp32s3_inmp.Base.Words.{to_int}
use esp32s3_inmp.Session.{decode_le16}
use esp32s3_inmp.Session.Decode.{encode}

-- A read from an open file; `none` is a file that is too short.
abbrev pub Reader : Type 0 → Type 0
Reader A = Bytes → Option (A × Bytes)

infixl 5 ◌>>=◌
abbrev pub ◌>>=◌ : {A B : Type 0} → Reader A → (A → Reader B) → Reader B
◌>>=◌ m k f = elim (m f) [ none ↦ none | some (a, f') ↦ k a f' ]

abbrev pub pure : {A : Type 0} → A → Reader A
pure a f = some (a, f)

unfoldable pub read_u32 : Reader ℕ
read_u32 (a ∷ b ∷ c ∷ d ∷ f) = some (a + 2 ^ 8 * b + 2 ^ 16 * c + 2 ^ 24 * d, f)
read_u32 _ = none

unfoldable pub read_u16 : Reader ℕ
read_u16 (a ∷ b ∷ f) = some (a + 2 ^ 8 * b, f)
read_u16 _ = none

-- `fread(id, 1, 4, f) == 4`
unfoldable pub read_id : Reader Bytes
read_id (a ∷ b ∷ c ∷ d ∷ f) = some (a ∷ b ∷ c ∷ d ∷ [], f)
read_id _ = none

-- `memcmp` of two texts of one length, against 0.
unfoldable pub same_bytes : Bytes → Bytes → Bool
same_bytes [] [] = true
same_bytes (a ∷ s) (b ∷ t) = a == b && same_bytes s t
same_bytes _ _ = false

-- The variables that a `fmt ` chunk sets.
pub record Fmt : Type 0 where
  pub audio_fmt : ℕ
  pub channels : ℕ
  pub sample_rate : ℕ
  pub bits : ℕ
  pub have_fmt : Bool

abbrev pub no_fmt : Fmt
no_fmt = record { audio_fmt = 0; channels = 0; sample_rate = 0; bits = 0; have_fmt = false }

unfoldable pub read_fmt : Reader Fmt
unfolding read_u16 read_u32
read_fmt = do
  audio_fmt ← read_u16
  channels ← read_u16
  sample_rate ← read_u32
  byte_rate ← read_u32
  block_align ← read_u16
  bits ← read_u16
  pure (record {
    audio_fmt = audio_fmt;
    channels = channels;
    sample_rate = sample_rate;
    bits = bits;
    have_fmt = true;
  })

pub record Wav : Type 0 where
  pub sample_rate : ℤ
  pub channels : ℕ
  pub num_frames : ℕ
  pub samples : List ℤ

-- The results from -1 to -7, and 0.
pub data WavResult : Type 0 where
  not_opened not_riff bad_fmt unsupported no_memory short_data no_data : WavResult
  ok : Wav → WavResult

-- Where a chunk leads: the function returns, or the loop goes on behind the chunk.
pub data Next : Type 0 where
  returns : WavResult → Next
  goes_on : Fmt → Bytes → Next

unfoldable pub fmt_chunk : Option (Fmt × Bytes) → ℕ → Next
fmt_chunk none sz = returns bad_fmt
fmt_chunk (some (fmt, f)) sz = goes_on fmt (if ltb 16 sz then drop (sz - 16) f else f)

module _ (alloc : ℕ → Bool) where
  unfoldable pub data_chunk : Fmt → ℕ → Bytes → WavResult
  data_chunk fmt sz f =
      if not fmt.have_fmt || not (fmt.audio_fmt == 1) || not (fmt.bits == 16) || fmt.channels == 0
      then unsupported
      else if not (alloc (if sz == 0 then 2 else sz))
      then no_memory
      else if ltb (length f) sz
      then short_data
      else ok (record {
        sample_rate = to_int fmt.sample_rate;
        channels = fmt.channels;
        num_frames = sz / 2 / fmt.channels;
        samples = decode_le16 (sz / 2) (take sz f);
      })

  unfoldable pub on_chunk : Fmt → Bytes → ℕ → Bytes → Next
  unfolding same_bytes read_fmt fmt_chunk data_chunk
  on_chunk fmt id sz f =
      if same_bytes id (codes "fmt ")
      then fmt_chunk (read_fmt f) sz
      else if same_bytes id (codes "data")
      then returns (data_chunk fmt sz f)
      else goes_on fmt (drop (u32 (sz + sz % 2)) f)

  -- The loop over chunks; `none` means that the fuel ran out.
  unfoldable pub chunk_loop : ℕ → Fmt → Bytes → Option WavResult
  unfolding read_id read_u32 on_chunk
  chunk_loop zero fmt f = none
  chunk_loop (suc fuel) fmt f = elim (read_id f) [
    | none ↦ some no_data
    | some (id, f1) ↦ elim (read_u32 f1) [
      | none ↦ some no_data
      | some (sz, f2) ↦ elim (on_chunk fmt id sz f2) [
        | returns r ↦ some r
        | goes_on fmt' f3 ↦ chunk_loop fuel fmt' f3
      ]
    ]
  ]

  -- What stands in front of the chunks.
  unfoldable pub read_riff : Reader ℕ
  unfolding read_id read_u32
  read_riff = do
    riff ← read_id
    chunk_size ← read_u32
    wave ← read_id
    λ f.
        if same_bytes riff (codes "RIFF") && same_bytes wave (codes "WAVE")
        then some (chunk_size, f)
        else none

  -- The file is `none` where `fopen` fails.
  unfoldable pub wav_read : ℕ → Option Bytes → Option WavResult
  unfolding read_riff chunk_loop
  wav_read fuel none = some not_opened
  wav_read fuel (some f) = elim (read_riff f) [
    | none ↦ some not_riff
    | some (chunk_size, f') ↦ chunk_loop fuel no_fmt f'
  ]

unfoldable pub write_u32 : ℕ → Bytes
write_u32 v = v % 256 ∷ v / 2 ^ 8 % 256 ∷ v / 2 ^ 16 % 256 ∷ v / 2 ^ 24 % 256 ∷ []

unfoldable pub write_u16 : ℕ → Bytes
write_u16 v = v % 256 ∷ v / 2 ^ 8 % 256 ∷ []

-- The bytes of the file; `n` is the length of the list, and the rate the `uint32_t` of the argument.
unfoldable pub wav_write_mono : List ℤ → ℕ → Bytes
unfolding write_u32 write_u16
wav_write_mono samples sample_rate =
    let data_bytes = u32 (length samples * 2) in
    codes "RIFF"
    ++ (write_u32 (u32 (36 + data_bytes))
        ++ (codes "WAVE"
            ++ (codes "fmt "
                ++ (write_u32 16
                    ++ (write_u16 1
                        ++ (write_u16 1
                            ++ (write_u32 sample_rate
                                ++ (write_u32 (u32 (sample_rate * 2))
                                    ++ (write_u16 2
                                        ++ (write_u16 16
                                            ++ (codes "data"
                                                ++ (write_u32 data_bytes
                                                    ++ encode samples))))))))))))
