-- ===== src/Kernels/Layers/Outputs.antt =====
-- What the layers write: how many outputs, and in which range.
use esp32s3_inmp.Base.{
  ℤ, ℕ, zero, suc, ◌+◌, ◌*◌, ◌≡◌, refl, sym, ap, ◌∙◌, List, [], ◌∷◌, ◌++◌, Option, length, arith,
}
use esp32s3_inmp.Base.Int.{pos_part}
use esp32s3_inmp.Quant.{Requant, nn_requantize_i8}
use esp32s3_inmp.Quant.Nearest.{IsRange, InRange, nn_requantize_i8-InRange}
use esp32s3_inmp.Kernels.Layers.{
  collect, Shape, out_h, out_w, entry, each_output, nn_fully_connected_i8, nn_global_avgpool_i8,
}

-- `k` outputs, each in the range of the activation.
abbrev pub Outputs : Requant → ℕ → List ℤ → Type 0
Outputs r k [] = k ≡ 0
Outputs r k (v ∷ vs) = InRange r v × ((n : ℕ) × (k ≡ suc n) × Outputs r n vs)

pub Outputs-length : (r : Requant) (k : ℕ) (vs : List ℤ) → Outputs r k vs → length vs ≡ k
Outputs-length r k [] h = sym h
Outputs-length r k (v ∷ vs) (i, (n, e, o)) = ap suc (Outputs-length r n vs o) ∙ sym e

Outputs-append :
    (r : Requant) (k j : ℕ) (vs ws : List ℤ)
    → Outputs r k vs
    → Outputs r j ws
    → Outputs r (k + j) (vs ++ ws)
Outputs-append r k j [] ws e o = rw e (rw (plain j) o)
  where
    plain : (j : ℕ) → 0 + j ≡ j
    plain j = omega arith
Outputs-append r k j (v ∷ vs) ws (i, (n, e, o)) o' =
    (i, (n + j, omega arith, Outputs-append r n j vs ws o o'))

Outputs-collect :
    (r : Requant) (n i k : ℕ) (body : ℕ → List ℤ)
    → ((j : ℕ) → Outputs r k (body j))
    → Outputs r (n * k) (collect n i body)
unfolding collect
Outputs-collect r zero i k body h = omega arith
Outputs-collect r (suc n) i k body h = rw (times n k) (
    Outputs-append r k (n * k) (body i) (collect n (suc i) body) (h i)
      (Outputs-collect r n (suc i) k body h))
  where
    times : (n k : ℕ) → suc n * k ≡ k + n * k
    times n k = grind arith

Outputs-one : (r : Requant) (v : ℤ) → InRange r v → Outputs r 1 (v ∷ [])
Outputs-one r v i = (i, (0, refl, refl))

module _ (r : Requant) (range : IsRange r) where
  one_each :
      (n i : ℕ) (acc mult shift : ℕ → ℤ)
      → Outputs r (n * 1) (collect n i (λ o. nn_requantize_i8 r (acc o) (mult o) (shift o) ∷ []))
  one_each n i acc mult shift =
      Outputs-collect r n i 1 (λ o. nn_requantize_i8 r (acc o) (mult o) (shift o) ∷ [])
        (λ o.
          Outputs-one r (nn_requantize_i8 r (acc o) (mult o) (shift o))
            (nn_requantize_i8-InRange r (acc o) (mult o) (shift o) range))

  pub each_output-Outputs :
      (s : Shape) (out_c : ℕ) (acc : ℕ → ℕ → ℕ → ℤ) (mult shift : List ℤ)
      → Outputs r
          (pos_part (out_h s) * (pos_part (out_w s) * (out_c * 1)))
          (each_output s out_c acc mult shift r)
  unfolding each_output
  each_output-Outputs s out_c acc mult shift =
      Outputs-collect r (pos_part (out_h s)) 0 (pos_part (out_w s) * (out_c * 1)) _ (λ y.
        Outputs-collect r (pos_part (out_w s)) 0 (out_c * 1) _
          (λ x. one_each out_c 0 (acc y x) (entry mult) (entry shift)))

  pub nn_global_avgpool_i8-Outputs :
      (input : List ℤ) (h w : ℤ) (c : ℕ) (zp mult shift : ℤ)
      → Outputs r (c * 1) (nn_global_avgpool_i8 input h w c zp mult shift r)
  unfolding nn_global_avgpool_i8
  nn_global_avgpool_i8-Outputs input h w c zp mult shift = one_each c 0 _ (λ o. mult) (λ o. shift)

  pub nn_fully_connected_i8-Outputs :
      (input : List ℤ) (n : ℕ) (w : List ℤ) (b : Option (List ℤ)) (out : ℕ) (zp mult shift : ℤ)
      → Outputs r (out * 1) (nn_fully_connected_i8 input n w b out zp mult shift r)
  unfolding nn_fully_connected_i8
  nn_fully_connected_i8-Outputs input n w b out zp mult shift =
      one_each out 0 _ (λ o. mult) (λ o. shift)
