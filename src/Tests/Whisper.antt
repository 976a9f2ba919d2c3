-- ===== src/Tests/Whisper.antt =====
-- The recogniser over whisper.cpp at concrete inputs.
use esp32s3_inmp.Base.{
  ℤ, ℕ, ◌+◌, ◌≡◌, true, Bytes, List, [], ◌∷◌, ◌++◌, Option, none, some, codes, take, arith,
}
use esp32s3_inmp.Session.Backend.{IsBackend}
use esp32s3_inmp.SttWhisper.{max_pending, stt_whisper_backend, join_segments}
use esp32s3_inmp.SttWhisper.Text.{all_text, join_segments-take}
use esp32s3_inmp.SttWhisper.Backend.{IsValid, whisper-IsBackend}

-- A library that always hears the same, and counts its calls.
heard : ℕ → ℕ → Option Bytes → List ℤ → Option (List (Option Bytes)) × ℕ
heard x threads language acc =
    (some (some (codes " light") ∷ none ∷ some (codes " on") ∷ []), x + 1)

whisper-IsBackend_example :
    IsBackend (stt_whisper_backend (λ v. v) (λ n. true) heard) IsValid max_pending
whisper-IsBackend_example = whisper-IsBackend (λ v. v) (λ n. true) heard

join_segments-take_example :
    join_segments [] (some (codes " light") ∷ none ∷ some (codes " on") ∷ [])
    ≡ take 255 ([] ++ all_text (some (codes " light") ∷ none ∷ some (codes " on") ∷ []))
join_segments-take_example =
    join_segments-take [] (some (codes " light") ∷ none ∷ some (codes " on") ∷ []) (omega arith)
