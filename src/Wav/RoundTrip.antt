-- ===== src/Wav/RoundTrip.antt =====
-- A file that `wav_write_mono` writes, read by `wav_read`.
use esp32s3_inmp.Base.{
  ℤ, pos, ℕ, suc, ◌+◌, ◌*◌, ◌/◌, ◌%◌, ◌^◌, ◌<◌, ◌≡◌, refl, sym, ap, ◌∙◌, Bool, true, List, [], ◌∷◌,
  some, arith, length, take, take_all, ap₂, append-nil, le→ltb, lt→ltb, negsuc, u32, if◌then◌else◌,
  ◌==◌,
}
use esp32s3_inmp.Session.{decode_le16}
use esp32s3_inmp.Session.Decode.{encode, AllInt16, bytes_of, decode-encode}
use esp32s3_inmp.Wav.{
  Fmt, ok, read_id, read_u32, read_u16, read_fmt, fmt_chunk, data_chunk, on_chunk, same_bytes,
  chunk_loop, read_riff, wav_read, write_u32, write_u16, wav_write_mono,
}

pub length-encode : (samples : List ℤ) → length (encode samples) ≡ 2 * length samples
unfolding encode bytes_of
length-encode [] = omega arith
length-encode (pos n ∷ samples) = omega (arith, length-encode samples)
length-encode (negsuc n ∷ samples) = omega (arith, length-encode samples)

-- What `write_u32` writes, put together again.
abbrev rebuilt : ℕ → ℕ
rebuilt v =
    v % 256 + 2 ^ 8 * (v / 2 ^ 8 % 256) + 2 ^ 16 * (v / 2 ^ 16 % 256) + 2 ^ 24 * (v / 2 ^ 24 % 256)

rebuilt-eq : (v : ℕ) → v < 2 ^ 32 → rebuilt v ≡ v
rebuilt-eq v h = omega arith

abbrev mono : ℕ → Fmt
mono rate = record { audio_fmt = 1; channels = 1; sample_rate = rate; bits = 16; have_fmt = true }

module _ (alloc : ℕ → Bool) where
  -- The chunks of a written file are a format and the data.
  reach_data :
      (fuel : ℕ) (samples : List ℤ) (rate : ℕ)
      → wav_read alloc (suc (suc fuel)) (some (wav_write_mono samples rate))
        ≡ some (
            data_chunk alloc
              (mono (rebuilt rate))
              (rebuilt (u32 (length samples * 2)))
              (encode samples))
  unfolding wav_read wav_write_mono read_riff read_id write_u32 write_u16 same_bytes chunk_loop
      on_chunk read_u32 read_fmt read_u16 fmt_chunk
  reach_data fuel samples rate = refl

  data_chunk-mono :
      (samples : List ℤ) (rate sz : ℕ)
      → AllInt16 samples
      → sz ≡ 2 * length samples
      → rate < 2 ^ 31
      → alloc (if sz == 0 then 2 else sz) ≡ true
      → data_chunk alloc (mono rate) sz (encode samples)
        ≡ ok (record {
          sample_rate = pos rate;
          channels = 1;
          num_frames = length samples;
          samples = samples;
        })
  unfolding data_chunk
  data_chunk-mono samples rate sz a e small al =
      let whole : take sz (encode samples) ≡ encode samples =
        take_all sz (encode samples) (omega (arith, length-encode samples)) in
      let half : sz / 2 ≡ length samples = omega arith in
      let frames : sz / 2 / 1 ≡ length samples = omega arith in
      let heard : decode_le16 (sz / 2) (take sz (encode samples)) ≡ samples =
        ap₂ decode_le16 half (whole ∙ sym (append-nil (encode samples)))
        ∙ decode-encode samples [] a in
      rw (
        al,
        le→ltb (length (encode samples)) sz (omega (arith, length-encode samples)),
        lt→ltb rate (2 ^ 31) small,
        frames,
        heard,
      )

  -- The file that is written for some samples is read back as one channel with those samples and their rate,
  -- for a rate below 2^31 and a file below 4 GB, if the buffer can be allocated.
  pub wav_read-wav_write_mono :
      (fuel : ℕ) (samples : List ℤ) (rate : ℕ)
      → AllInt16 samples
      → 2 * length samples < 2 ^ 32
      → rate < 2 ^ 31
      → alloc (if 2 * length samples == 0 then 2 else 2 * length samples) ≡ true
      → wav_read alloc (suc (suc fuel)) (some (wav_write_mono samples rate))
        ≡ some (
            ok (record {
              sample_rate = pos rate;
              channels = 1;
              num_frames = length samples;
              samples = samples;
            }))
  wav_read-wav_write_mono fuel samples rate a small small_rate al =
      let size : rebuilt (u32 (length samples * 2)) ≡ 2 * length samples = omega arith in
      reach_data fuel samples rate
      ∙ (ap₂ (λ r n. some (data_chunk alloc (mono r) n (encode samples)))
            (rebuilt-eq rate (omega arith)) size
          ∙ ap some (data_chunk-mono samples rate (2 * length samples) a refl small_rate al))
