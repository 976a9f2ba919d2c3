-- ===== src/Kernels.antt =====
-- firmware/core/src/nn/kernels.c: the choice of a class; the list is `v[0 .. n)`, and an `int8_t` is a signed
-- integer. The layers are in Kernels/Layers. The softmax is floating point, and is not modelled.
pub mod Layers
use esp32s3_inmp.Base.{
  ℤ, pos, negsuc, ℕ, ◌+◌, ◌≡◌, refl, sym, ap, ◌∙◌, Bool, true, false, List, [], ◌∷◌, ◌++◌,
  append_assoc, append-nil, arith, ltb, length, length-append, if◌then◌else◌, Bool-cases, inl, inr,
}

-- `a < b`
abbrev pub less : ℤ → ℤ → Bool
less (pos a) (pos b) = ltb a b
less (pos a) (negsuc b) = false
less (negsuc a) (pos b) = true
less (negsuc a) (negsuc b) = ltb b a

-- The loop on the entries from `i` on; `top` is `v[best]`.
unfoldable pub argmax_loop : ℕ → ℤ → ℕ → List ℤ → ℕ
argmax_loop best top i [] = best
argmax_loop best top i (x ∷ v) =
    let higher = argmax_loop i x (i + 1) v in
    let same = argmax_loop best top (i + 1) v in if less top x then higher else same

unfoldable pub nn_argmax_i8 : List ℤ → ℕ
unfolding argmax_loop
nn_argmax_i8 [] = 0
nn_argmax_i8 (x ∷ v) = argmax_loop 0 x 1 v

abbrev pub NoneAbove : ℤ → List ℤ → Type 0
NoneAbove x [] = Unit {0}
NoneAbove x (y ∷ ys) = (less x y ≡ false) × NoneAbove x ys

-- At the index stands an entry that no entry is above.
pub record IsTop (v : List ℤ) (index : ℕ) : Type 0 where
  pub before : List ℤ
  pub top : ℤ
  pub after : List ℤ
  pub place : v ≡ before ++ (top ∷ after)
  pub at_index : length before ≡ index
  pub none_above : NoneAbove top v

less_step : (a b c : ℤ) → less a b ≡ true → less a c ≡ false → less b c ≡ false
less_step (pos a) (pos b) (pos c) h k = ground arith
less_step (pos a) (pos b) (negsuc c) h k = refl
less_step (pos a) (negsuc b) c h k = cc
less_step (negsuc a) (pos b) (pos c) h k = cc
less_step (negsuc a) (pos b) (negsuc c) h k = refl
less_step (negsuc a) (negsuc b) (pos c) h k = cc
less_step (negsuc a) (negsuc b) (negsuc c) h k = ground arith

less_self : (a : ℤ) → less a a ≡ false
less_self (pos a) = ground arith
less_self (negsuc a) = ground arith

NoneAbove-higher : (a b : ℤ) (v : List ℤ) → less a b ≡ true → NoneAbove a v → NoneAbove b v
NoneAbove-higher a b [] h n = tt
NoneAbove-higher a b (c ∷ v) h (k, n) = (less_step a b c h k, NoneAbove-higher a b v h n)

NoneAbove-snoc :
    (a b : ℤ) (v : List ℤ) → NoneAbove a v → less a b ≡ false → NoneAbove a (v ++ (b ∷ []))
NoneAbove-snoc a b [] n h = (h, tt)
NoneAbove-snoc a b (c ∷ v) (k, n) h = (k, NoneAbove-snoc a b v n h)

argmax_loop-IsTop :
    (rest seen : List ℤ) (best : ℕ) (top : ℤ) (before after : List ℤ)
    → seen ≡ before ++ (top ∷ after)
    → length before ≡ best
    → NoneAbove top seen
    → IsTop (seen ++ rest) (argmax_loop best top (length seen) rest)
unfolding argmax_loop
argmax_loop-IsTop [] seen best top before after e l n =
    rw (append-nil seen) (record {
      before = before;
      top = top;
      after = after;
      place = e;
      at_index = l;
      none_above = n;
    })
argmax_loop-IsTop (x ∷ rest) seen best top before after e l n =
    let longer : length (seen ++ (x ∷ [])) ≡ length seen + 1 = length-append seen (x ∷ []) in
    elim (Bool-cases (less top x)) [
      | inl h ↦
          rw (h, sym longer, sym (append_assoc seen (x ∷ []) rest))
            (argmax_loop-IsTop rest (seen ++ (x ∷ [])) (length seen) x seen [] refl refl
              (NoneAbove-snoc x x seen (NoneAbove-higher top x seen h n) (less_self x)))
      | inr h ↦
          rw (h, sym longer, sym (append_assoc seen (x ∷ []) rest))
            (argmax_loop-IsTop rest (seen ++ (x ∷ [])) best top before (after ++ (x ∷ []))
              (ap (λ s. s ++ (x ∷ [])) e ∙ append_assoc before (top ∷ after) (x ∷ [])) l
              (NoneAbove-snoc top x seen n h))
    ]

-- The index that is chosen is in the list, for a list that is not empty, and no entry of the list is
-- above the one that stands there.
pub nn_argmax_i8-IsTop : (x : ℤ) (v : List ℤ) → IsTop (x ∷ v) (nn_argmax_i8 (x ∷ v))
unfolding nn_argmax_i8
nn_argmax_i8-IsTop x v = argmax_loop-IsTop v (x ∷ []) 0 x [] [] refl refl (less_self x, tt)
