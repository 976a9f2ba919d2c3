-- ===== src/Quant/Nearest.antt =====
-- What requantisation computes: the nearest integer, and a value of the activation's range.
use esp32s3_inmp.Base.{ℤ, pos, negsuc, ℕ, ◌+◌, ◌*◌, ◌≤◌, ◌≡◌, arith}
use esp32s3_inmp.Base.Int.{pos_part, neg_part, ◌+ℤ◌, ◌≤ℤ◌}
use esp32s3_inmp.Quant.{
  to_int8, clamp, Requant, nn_requantize_i8, nn_multiply_by_quantized_multiplier,
}

-- `d` times `r` is no further from `x` than half of `d`.
abbrev pub Nearest : ℤ → ℕ → ℤ → Type 0
Nearest x d r =
    (2 * (pos_part r * d + neg_part x) ≤ 2 * (pos_part x + neg_part r * d) + d)
    × (2 * (pos_part x + neg_part r * d) ≤ 2 * (pos_part r * d + neg_part x) + d)

-- The same, on the parts of the result.
NearestParts : ℤ → ℕ → ℕ → ℕ → Type 0
NearestParts x d a b =
    (2 * (a * d + neg_part x) ≤ 2 * (pos_part x + b * d) + d)
    × (2 * (pos_part x + b * d) ≤ 2 * (a * d + neg_part x) + d)

clamp_bounds : (lo hi v : ℤ) → lo ≤ℤ hi → (lo ≤ℤ clamp lo hi v) × (clamp lo hi v ≤ℤ hi)
unfolding clamp
clamp_bounds lo hi v h = ground arith

to_int8-eq : (v : ℤ) → negsuc 127 ≤ℤ v → v ≤ℤ pos 127 → to_int8 v ≡ v
unfolding to_int8
to_int8-eq (pos n) lo hi = ground arith
to_int8-eq (negsuc n) lo hi = ground arith

-- The range that a layer clamps to lies in that of `int8_t`.
pub record IsRange (r : Requant) : Type 0 where
  pub low : negsuc 127 ≤ℤ r.act_min
  pub ordered : r.act_min ≤ℤ r.act_max
  pub high : r.act_max ≤ℤ pos 127

-- An output of a layer.
abbrev pub InRange : Requant → ℤ → Type 0
InRange r v = (r.act_min ≤ℤ v) × (v ≤ℤ r.act_max)

-- A requantised value lies in the activation's range: the conversion to `int8_t` loses nothing.
pub nn_requantize_i8-InRange :
    (r : Requant) (acc qm shift : ℤ) → IsRange r → InRange r (nn_requantize_i8 r acc qm shift)
unfolding nn_requantize_i8
nn_requantize_i8-InRange r acc qm shift v =
    let x : ℤ = nn_multiply_by_quantized_multiplier acc qm shift +ℤ r.output_zp in
    let (lo, hi) = clamp_bounds r.act_min r.act_max x v.ordered in
    rw
      (to_int8-eq (clamp r.act_min r.act_max x) (omega (arith, lo, v.low))
        (omega (arith, hi, v.high)))
      (lo, hi)
