-- ===== src/KwsModel/Sizes.antt =====
-- The sizes of the maps of kws_model.c, and the two tests of them.
use esp32s3_inmp.Base.{
  ℤ, pos, negsuc, ℕ, zero, suc, ◌*◌, ◌%◌, ◌^◌, ◌≤◌, ◌<◌, ◌≡◌, sym, ap, ◌∙◌, false, ltb, ltb→le,
  arith,
}
use esp32s3_inmp.Base.Int.{◌*ℤ◌, ◌+ℤ◌, ◌-ℤ◌, ltb_ℤ, pos_part, quot}
use esp32s3_inmp.Kernels.Layers.{out_size}
use esp32s3_inmp.KwsModel.{kws_model_scratch, size_product, wrap_int, int_product}

-- A size whose product C computes without a wrap.
pub record IsSmall (c : ℕ) (h w : ℤ) : Type 0 where
  pub rows : pos_part h < 2 ^ 31
  pub columns : pos_part w < 2 ^ 31
  pub front : c * pos_part h < 2 ^ 32
  pub whole : c * pos_part h * pos_part w < 2 ^ 32

cells : (a b c : ℕ) → a * (b * (c * 1)) ≡ c * a * b
cells a b c = grind arith

none_left : (b c : ℕ) → 0 * (b * c) ≡ 0
none_left b c = omega arith

times_pos : (a b : ℕ) → pos a *ℤ pos b ≡ pos (a * b)
unfolding ◌*ℤ◌
times_pos a b = ground arith

wrap_small : (n : ℕ) → n < 2 ^ 31 → wrap_int (pos n) ≡ pos n
unfolding wrap_int
wrap_small n small = ground (arith, small)

-- A product that fits an `int` is exact.
int_product_exact : (a b : ℕ) → a * b < 2 ^ 31 → int_product (pos a) (pos b) ≡ pos (a * b)
int_product_exact a b small = ap wrap_int (times_pos a b) ∙ wrap_small (a * b) small

-- A size whose product fits an `int`.
pub record IsSmallInt (c : ℕ) (h w : ℤ) : Type 0 where
  pub front : c * pos_part h < 2 ^ 31
  pub whole : c * pos_part h * pos_part w < 2 ^ 31

-- The test in `int`.
pub int_product_fits :
    (c : ℕ) (h w : ℤ)
    → IsSmallInt c h w
    → ltb_ℤ (pos kws_model_scratch) (int_product (int_product (pos c) h) w) ≡ false
    → pos_part h * (pos_part w * (c * 1)) ≤ kws_model_scratch
int_product_fits c (pos a) (pos b) small e =
    let e' : ltb_ℤ (pos kws_model_scratch) (pos (c * a * b)) ≡ false =
      ap (λ x. ltb_ℤ (pos kws_model_scratch) x)
        (sym (
          ap (λ x. int_product x (pos b)) (int_product_exact c a small.front)
          ∙ int_product_exact (c * a) b small.whole))
      ∙ e in
    rw (cells a b c) (ground arith)
int_product_fits c (pos a) (negsuc b) small e = omega arith
int_product_fits c (negsuc a) w small e = omega arith

-- The test in `size_t`.
pub size_product_fits :
    (c : ℕ) (h w : ℤ)
    → IsSmall c h w
    → ltb kws_model_scratch (size_product c h w) ≡ false
    → pos_part h * (pos_part w * (c * 1)) ≤ kws_model_scratch
size_product_fits c (pos a) (pos b) small e =
    let ea : a % 2 ^ 32 ≡ a = omega (arith, small.rows) in
    let eb : b % 2 ^ 32 ≡ b = omega (arith, small.columns) in
    let ec : c * a % 2 ^ 32 ≡ c * a = omega (arith, small.front) in
    let ed : c * a * b % 2 ^ 32 ≡ c * a * b = omega (arith, small.whole) in
    let exact : size_product c (pos a) (pos b) ≡ c * a * b =
      ap (λ x. c * x % 2 ^ 32 * (b % 2 ^ 32) % 2 ^ 32) ea
      ∙ (ap (λ x. x * (b % 2 ^ 32) % 2 ^ 32) ec ∙ (ap (λ x. c * a * x % 2 ^ 32) eb ∙ ed)) in
    rw (cells a b c)
      (omega (arith, ltb→le kws_model_scratch (size_product c (pos a) (pos b)) e, exact))
size_product_fits c (pos a) (negsuc b) small e = omega arith
size_product_fits c (negsuc a) w small e = omega arith

-- A filter of one place leaves the size as it is.
plus_none : (x : ℤ) → x +ℤ pos 0 ≡ x
unfolding ◌+ℤ◌
plus_none (pos n) = ground arith
plus_none (negsuc n) = ground arith

less_one : (n : ℕ) → pos (suc n) -ℤ pos 1 ≡ pos n
unfolding ◌-ℤ◌
less_one n = ground arith

less_one_neg : (n : ℕ) → negsuc n -ℤ pos 1 ≡ negsuc (suc n)
unfolding ◌-ℤ◌
less_one_neg n = ground arith

one_more : (n : ℕ) → quot (pos n) 1 +ℤ pos 1 ≡ pos (suc n)
unfolding ◌+ℤ◌
one_more n = ground arith

one_more_neg : (n : ℕ) → quot (negsuc (suc n)) 1 +ℤ pos 1 ≡ negsuc n
unfolding ◌+ℤ◌
one_more_neg n = ground arith

one_less_one_more : (x : ℤ) → quot (x -ℤ pos 1) 1 +ℤ pos 1 ≡ x
unfolding ◌+ℤ◌ ◌-ℤ◌
one_less_one_more (pos zero) = ground arith
one_less_one_more (pos (suc n)) = ap (λ y. quot y 1 +ℤ pos 1) (less_one n) ∙ one_more n
one_less_one_more (negsuc n) = ap (λ y. quot y 1 +ℤ pos 1) (less_one_neg n) ∙ one_more_neg n

pub out_size_one : (x : ℤ) → out_size x 0 1 1 ≡ x
unfolding out_size
out_size_one x = ap (λ y. quot (y -ℤ pos 1) 1 +ℤ pos 1) (plus_none x) ∙ one_less_one_more x
