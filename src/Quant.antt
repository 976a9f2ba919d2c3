-- ===== src/Quant.antt =====
-- firmware/core/src/nn/quant.c: requantisation in integers. An `int32_t` is a signed integer; sums and
-- products are exact, which they are in C while they stay in range. Shifts are below 32. Finding the
-- multiplier of a real number, `nn_quantize_multiplier`, is floating point, and is not modelled.
pub mod Nearest
use esp32s3_inmp.Base.{
  ℤ, pos, negsuc, ℕ, zero, suc, ◌+◌, ◌-◌, ◌*◌, ◌/◌, ◌%◌, ◌^◌, Bool, true, false, ◌&&◌, ltb, ◌==◌,
  if◌then◌else◌,
}
use esp32s3_inmp.Base.Int.{◌+ℤ◌, ◌*ℤ◌, ltb_ℤ, quot, shifted, low_bits}

abbrev pub int32_max : ℤ
int32_max = pos (2 ^ 31 - 1)

-- `a == INT32_MIN`
abbrev pub is_int32_min : ℤ → Bool
is_int32_min (pos n) = false
is_int32_min (negsuc n) = n == 2 ^ 31 - 1

-- `(1 << 30)` or `1 - (1 << 30)`
abbrev pub nudge_of : ℤ → ℤ
nudge_of (pos n) = pos (2 ^ 30)
nudge_of (negsuc n) = negsuc (2 ^ 30 - 2)

-- The quotient of the nudged product.
unfoldable pub rounded_high : ℤ → ℤ
rounded_high ab = quot (ab +ℤ nudge_of ab) (2 ^ 31)

unfoldable pub nn_sat_round_doubling_high_mul : ℤ → ℤ → ℤ
unfolding rounded_high
nn_sat_round_doubling_high_mul a b =
    let high : ℤ = rounded_high (a *ℤ b) in
    if is_int32_min a && is_int32_min b then int32_max else high

-- `x < 0 ? 1 : 0`
abbrev pub is_negative : ℤ → ℕ
is_negative (pos n) = 0
is_negative (negsuc n) = 1

-- The division by `d`, a power of two above 1.
unfoldable pub divide_rounding : ℤ → ℕ → ℤ
divide_rounding x d =
    let threshold = (d - 1) / 2 + is_negative x in
    shifted x d +ℤ (if ltb threshold (low_bits x d) then pos 1 else pos 0)

unfoldable pub nn_rounding_divide_by_pot : ℤ → ℕ → ℤ
unfolding divide_rounding
nn_rounding_divide_by_pot x zero = x
nn_rounding_divide_by_pot x (suc e) = divide_rounding x (2 ^ suc e)

unfoldable pub nn_multiply_by_quantized_multiplier : ℤ → ℤ → ℤ → ℤ
unfolding nn_sat_round_doubling_high_mul nn_rounding_divide_by_pot
nn_multiply_by_quantized_multiplier x qm (pos shift) =
    nn_rounding_divide_by_pot (nn_sat_round_doubling_high_mul (x *ℤ pos (2 ^ shift)) qm) 0
nn_multiply_by_quantized_multiplier x qm (negsuc shift) =
    nn_rounding_divide_by_pot (nn_sat_round_doubling_high_mul (x *ℤ pos 1) qm) (suc shift)

-- `(int8_t)v`
unfoldable pub to_int8 : ℤ → ℤ
to_int8 v = let m = low_bits v 256 in if ltb m 128 then pos m else negsuc (255 - m)

-- The two tests of the activation's range.
unfoldable pub clamp : ℤ → ℤ → ℤ → ℤ
clamp act_min act_max v =
    let low : ℤ = if ltb_ℤ v act_min then act_min else v in
    if ltb_ℤ act_max low then act_max else low

-- What a layer requantises with.
pub record Requant : Type 0 where
  pub output_zp : ℤ
  pub act_min : ℤ
  pub act_max : ℤ

unfoldable pub nn_requantize_i8 : Requant → ℤ → ℤ → ℤ → ℤ
unfolding nn_multiply_by_quantized_multiplier clamp to_int8
nn_requantize_i8 r acc qm shift =
    to_int8
      (clamp r.act_min r.act_max (nn_multiply_by_quantized_multiplier acc qm shift +ℤ r.output_zp))
