-- ===== src/Tests/Wav.antt =====
-- The reader and the writer of WAV files at concrete inputs.
use esp32s3_inmp.Base.{pos, negsuc, ◌≡◌, refl, true, [], ◌∷◌, some, codes, arith}
use esp32s3_inmp.Wav.{WavResult, ok, wav_read, wav_write_mono}
use esp32s3_inmp.Wav.Bound.{wav_read-returns}
use esp32s3_inmp.Wav.RoundTrip.{wav_read-wav_write_mono}

wav_read-returns_example :
    (x : WavResult) × (wav_read (λ n. true) 20 (some (codes "RIFF1234WAVEfmt ")) ≡ some x)
wav_read-returns_example = wav_read-returns (λ n. true) 20 (codes "RIFF1234WAVEfmt ") (omega arith)

wav_read-wav_write_mono_example :
    wav_read (λ n. true) 2 (some (wav_write_mono (pos 513 ∷ negsuc 0 ∷ []) 16000))
    ≡ some (
        ok (record {
          sample_rate = pos 16000;
          channels = 1;
          num_frames = 2;
          samples = pos 513 ∷ negsuc 0 ∷ [];
        }))
wav_read-wav_write_mono_example =
    wav_read-wav_write_mono (λ n. true) 0 (pos 513 ∷ negsuc 0 ∷ []) 16000
      (omega arith, (omega arith, tt)) (omega arith) (omega arith) refl
