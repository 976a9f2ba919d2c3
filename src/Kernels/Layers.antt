-- ===== src/Kernels/Layers.antt =====
-- firmware/core/src/nn/kernels.c: the layers. An array is a list, read as 0 outside it; sizes that C computes
-- by a subtraction are integers, the others numbers. Accumulators are exact, as they are in C while they stay
-- in range. An output is written in the order of its index, so that the list grows at its end.
pub mod Outputs
use esp32s3_inmp.Base.{
  ℤ, pos, negsuc, ℕ, zero, suc, ◌+◌, ◌*◌, Bool, true, false, ◌&&◌, List, [], ◌∷◌, ◌++◌, Option,
  none, some, get_or, if◌then◌else◌,
}
use esp32s3_inmp.Base.Int.{pos_part, sub_ℕ, ◌+ℤ◌, ◌-ℤ◌, ◌*ℤ◌, ltb_ℤ, quot}
use esp32s3_inmp.Quant.{Requant, nn_requantize_i8}

-- `for (i = ...; n more rounds; i++) acc = body(i, acc);`
unfoldable pub loop : ℕ → ℕ → (ℕ → ℤ → ℤ) → ℤ → ℤ
loop zero i body acc = acc
loop (suc n) i body acc = loop n (suc i) body (body i acc)

-- The same for a loop that writes outputs.
unfoldable pub collect : ℕ → ℕ → (ℕ → List ℤ) → List ℤ
collect zero i body = []
collect (suc n) i body = body i ++ collect n (suc i) body

abbrev pub entry : List ℤ → ℕ → ℤ
entry v i = get_or v i (pos 0)

-- `bias ? bias[o] : 0`
abbrev pub bias_of : Option (List ℤ) → ℕ → ℤ
bias_of none o = pos 0
bias_of (some bias) o = entry bias o

-- The row of weights starts at `row`.
unfoldable pub dot_row : ℕ → List ℤ → ℤ → List ℤ → ℕ → ℤ → ℤ
unfolding loop
dot_row in_dim input input_zp weights row acc =
    loop in_dim 0 (λ i a. a +ℤ (entry input i -ℤ input_zp) *ℤ entry weights (row + i)) acc

unfoldable pub nn_fully_connected_i8 :
    List ℤ → ℕ → List ℤ → Option (List ℤ) → ℕ → ℤ → ℤ → ℤ → Requant → List ℤ
unfolding dot_row collect
nn_fully_connected_i8 input in_dim weights bias out_dim input_zp out_mult out_shift r =
    collect out_dim 0 λ o.
      nn_requantize_i8 r (dot_row in_dim input input_zp weights (o * in_dim) (bias_of bias o))
        out_mult out_shift
      ∷ []

-- The arguments of a convolution but for the arrays.
pub record Shape : Type 0 where
  pub in_h : ℤ
  pub in_w : ℤ
  pub in_c : ℕ
  pub filt_h : ℕ
  pub filt_w : ℕ
  pub stride_h : ℕ
  pub stride_w : ℕ
  pub pad_h : ℕ
  pub pad_w : ℕ
  pub input_zp : ℤ

-- `(in + 2 * pad - filt) / stride + 1`
unfoldable pub out_size : ℤ → ℕ → ℕ → ℕ → ℤ
out_size size pad filt stride = quot (size +ℤ pos (2 * pad) -ℤ pos filt) stride +ℤ pos 1

abbrev pub out_h : Shape → ℤ
out_h s = out_size s.in_h s.pad_h s.filt_h s.stride_h

abbrev pub out_w : Shape → ℤ
out_w s = out_size s.in_w s.pad_w s.filt_w s.stride_w

-- `v >= 0 && v < size`
abbrev pub is_inside : ℤ → ℤ → Bool
is_inside (pos v) size = ltb_ℤ (pos v) size
is_inside (negsuc v) size = false

-- The input at a place of the padded map.
unfoldable pub padded : Shape → List ℤ → ℤ → ℤ → ℕ → ℤ
padded s input iy ix ic =
    if is_inside iy s.in_h && is_inside ix s.in_w
    then entry input ((pos_part iy * pos_part s.in_w + pos_part ix) * s.in_c + ic)
    else s.input_zp

-- `x * stride - pad + f`
abbrev pub place : ℕ → ℕ → ℕ → ℕ → ℤ
place x stride pad f = sub_ℕ (x * stride + f) pad

-- The accumulator of an output of `nn_conv2d_i8`.
unfoldable pub conv_acc : Shape → List ℤ → List ℤ → Option (List ℤ) → ℕ → ℕ → ℕ → ℤ
unfolding loop padded
conv_acc s input weights bias y x oc =
    loop s.filt_h 0
      (λ fy. loop s.filt_w 0 (λ fx. loop s.in_c 0 (λ ic acc.
        acc
        +ℤ (padded s input (place y s.stride_h s.pad_h fy) (place x s.stride_w s.pad_w fx) ic
            -ℤ s.input_zp)
          *ℤ entry weights (((oc * s.filt_h + fy) * s.filt_w + fx) * s.in_c + ic))))
      (bias_of bias oc)

-- The accumulator of an output of `nn_depthwise_conv2d_i8`.
unfoldable pub depthwise_acc : Shape → List ℤ → List ℤ → Option (List ℤ) → ℕ → ℕ → ℕ → ℤ
unfolding loop padded
depthwise_acc s input weights bias y x c =
    loop s.filt_h 0
      (λ fy. loop s.filt_w 0 (λ fx acc.
        acc
        +ℤ (padded s input (place y s.stride_h s.pad_h fy) (place x s.stride_w s.pad_w fx) c
            -ℤ s.input_zp)
          *ℤ entry weights ((fy * s.filt_w + fx) * s.in_c + c)))
      (bias_of bias c)

-- The loops over the outputs, which the two convolutions share.
unfoldable pub each_output : Shape → ℕ → (ℕ → ℕ → ℕ → ℤ) → List ℤ → List ℤ → Requant → List ℤ
unfolding collect
each_output s out_c acc out_mult out_shift r = collect (pos_part (out_h s)) 0 λ y.
    collect (pos_part (out_w s)) 0 λ x.
      collect out_c 0
        λ oc. nn_requantize_i8 r (acc y x oc) (entry out_mult oc) (entry out_shift oc) ∷ []

unfoldable pub nn_conv2d_i8 :
    Shape → List ℤ → List ℤ → Option (List ℤ) → ℕ → List ℤ → List ℤ → Requant → List ℤ
unfolding each_output conv_acc
nn_conv2d_i8 s input weights bias out_c out_mult out_shift r =
    each_output s out_c (conv_acc s input weights bias) out_mult out_shift r

unfoldable pub nn_depthwise_conv2d_i8 :
    Shape → List ℤ → List ℤ → Option (List ℤ) → List ℤ → List ℤ → Requant → List ℤ
unfolding each_output depthwise_acc
nn_depthwise_conv2d_i8 s input weights bias out_mult out_shift r =
    each_output s s.in_c (depthwise_acc s input weights bias) out_mult out_shift r

unfoldable pub nn_global_avgpool_i8 : List ℤ → ℤ → ℤ → ℕ → ℤ → ℤ → ℤ → Requant → List ℤ
unfolding loop collect
nn_global_avgpool_i8 input in_h in_w in_c input_zp out_mult out_shift r = collect in_c 0 λ c.
    nn_requantize_i8 r
      (loop (pos_part in_h) 0
        (λ y.
          loop (pos_part in_w) 0
            (λ x acc. acc +ℤ (entry input ((y * pos_part in_w + x) * in_c + c) -ℤ input_zp)))
        (pos 0))
      out_mult out_shift
    ∷ []
