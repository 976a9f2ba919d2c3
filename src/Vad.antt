-- ===== src/Vad.antt =====
-- server/src/vad.c: the energy gate. A sample is an `int16_t` as a signed integer; sums are `uint64_t`,
-- and the mean is returned as a `uint32_t`.
use esp32s3_inmp.Base.{
  ℤ, pos, negsuc, ℕ, suc, ◌+◌, ◌*◌, ◌/◌, ◌%◌, ◌^◌, ◌≤◌, ◌<◌, ◌≡◌, Bool, List, [], ◌∷◌, arith, u32,
  if◌then◌else◌, ◌==◌, ltb, length,
}

-- `s < 0 ? -s : s`, in `int32_t`, where the negation of an `int16_t` cannot overflow.
abbrev pub magnitude : ℤ → ℕ
magnitude (pos n) = n
magnitude (negsuc n) = suc n

-- The range of `int16_t`.
abbrev pub IsSample : ℤ → Type 0
IsSample s = magnitude s ≤ 2 ^ 15

abbrev pub AllSamples : List ℤ → Type 0
AllSamples [] = Unit {0}
AllSamples (s ∷ pcm) = IsSample s × AllSamples pcm

unfoldable pub energy_sum : ℕ → List ℤ → ℕ
energy_sum sum [] = sum
energy_sum sum (s ∷ pcm) = energy_sum ((sum + magnitude s) % 2 ^ 64) pcm

unfoldable pub vad_frame_energy : List ℤ → ℕ
unfolding energy_sum
vad_frame_energy pcm = if length pcm == 0 then 0 else u32 (energy_sum 0 pcm / length pcm)

pub record VadCfg : Type 0 where
  pub energy_thresh : ℕ

unfoldable pub vad_is_speech : VadCfg → List ℤ → Bool
unfolding vad_frame_energy
vad_is_speech cfg pcm = ltb cfg.energy_thresh (vad_frame_energy pcm)

-- The exact sum of the magnitudes.
pub total_magnitude : List ℤ → ℕ
total_magnitude [] = 0
total_magnitude (s ∷ pcm) = magnitude s + total_magnitude pcm

energy_sum_lem :
    (pcm : List ℤ) (sum : ℕ)
    → sum + total_magnitude pcm < 2 ^ 64
    → energy_sum sum pcm ≡ sum + total_magnitude pcm
unfolding energy_sum total_magnitude
energy_sum_lem [] sum h = omega arith
energy_sum_lem (s ∷ pcm) sum h =
    let exact : (sum + magnitude s) % 2 ^ 64 ≡ sum + magnitude s = omega arith in
    omega (arith, energy_sum_lem pcm ((sum + magnitude s) % 2 ^ 64) (omega arith), exact)

pub total_magnitude-le : (pcm : List ℤ) → AllSamples pcm → total_magnitude pcm ≤ 2 ^ 15 * length pcm
unfolding total_magnitude
total_magnitude-le [] p = omega arith
total_magnitude-le (s ∷ pcm) (p, ps) = omega (arith, total_magnitude-le pcm ps)

mean_bounds :
    (t n : ℕ) → 0 < n → t ≤ 2 ^ 15 * n → (t / n * n ≤ t) × (t < t / n * n + n) × (t / n ≤ 2 ^ 15)
mean_bounds t n h le = grind arith

-- For a frame of fewer than 2^48 samples nothing overflows: the energy is the exact mean of the
-- magnitudes, rounded down, and at most 2^15.
pub vad_frame_energy_lem :
    (pcm : List ℤ)
    → AllSamples pcm
    → 0 < length pcm
    → length pcm < 2 ^ 48
    → (vad_frame_energy pcm * length pcm ≤ total_magnitude pcm)
      × (total_magnitude pcm < vad_frame_energy pcm * length pcm + length pcm)
      × (vad_frame_energy pcm ≤ 2 ^ 15)
unfolding vad_frame_energy
vad_frame_energy_lem pcm p nonempty small = ground (
  arith,
  energy_sum_lem pcm 0,
  total_magnitude-le pcm p,
  mean_bounds (total_magnitude pcm) (length pcm) nonempty,
)
