-- ===== src/KwsModel.antt =====
-- firmware/core/src/kws_model.c and the network of firmware/core/src/kws.c: the layers of the wake word's
-- networks. A scratch buffer is the list of what has been written to it, `none` is the answer false. `size_t` has
-- the 32 bits of the ESP32-S3. The scales of the model, the decision over probabilities and what follows
-- it are floating point, and are not modelled.
pub mod Sizes
pub mod Fits
pub mod Scratch
use esp32s3_inmp.Base.{
  ℤ, pos, negsuc, ℕ, zero, suc, ◌+◌, ◌-◌, ◌*◌, ◌%◌, ◌^◌, Bool, true, false, List, [], ◌∷◌, Option,
  none, some, ltb, if◌then◌else◌,
}
use esp32s3_inmp.Base.Words.{to_int}
use esp32s3_inmp.Base.Int.{◌*ℤ◌, ltb_ℤ}
use esp32s3_inmp.Quant.{Requant}
use esp32s3_inmp.Kernels.Layers.{
  Shape, out_size, out_h, out_w, nn_conv2d_i8, nn_depthwise_conv2d_i8, nn_global_avgpool_i8,
  nn_fully_connected_i8,
}

abbrev pub kws_model_scratch : ℕ
kws_model_scratch = 8192

-- A layer's weights: `[..][kh][kw][in]`, the bias, and a multiplier and a shift for each channel.
pub record Weights : Type 0 where
  pub w : List ℤ
  pub b : Option (List ℤ)
  pub mult : List ℤ
  pub shift : List ℤ

pub record KwsModel : Type 0 where
  pub in_h : ℕ
  pub in_w : ℕ
  pub conv : Weights
  pub conv_oc : ℕ
  pub conv_kh : ℕ
  pub conv_kw : ℕ
  pub conv_stride : ℕ
  pub conv_pad : ℕ
  pub n_blocks : ℕ
  pub dw : Weights
  pub dw_k : ℕ
  pub dw_stride : ℕ
  pub dw_pad : ℕ
  pub pw : Weights
  pub pw_oc : ℕ
  pub gap_mult : ℤ
  pub gap_shift : ℤ
  pub fc_w : List ℤ
  pub fc_b : Option (List ℤ)
  pub fc_mult : ℤ
  pub fc_shift : ℤ
  pub num_classes : ℕ
  pub in_zp : ℤ
  pub conv_zp : ℤ
  pub dw_zp : ℤ
  pub pw_zp : ℤ
  pub gap_zp : ℤ
  pub out_zp : ℤ

-- A feature map: `cur`, `cur_h`, `cur_w` and `cur_c`.
pub record FeatureMap : Type 0 where
  pub cells : List ℤ
  pub h : ℤ
  pub w : ℤ
  pub c : ℕ

-- An integer as a `size_t`.
abbrev pub to_size : ℤ → ℕ
to_size (pos n) = n % 2 ^ 32
to_size (negsuc n) = 2 ^ 32 - 1 - n % 2 ^ 32

-- `(size_t)c * h * w`
abbrev pub size_product : ℕ → ℤ → ℤ → ℕ
size_product c h w = c * to_size h % 2 ^ 32 * to_size w % 2 ^ 32

-- The 32 bits of an `int`. An overflow is undefined in C; here it wraps.
unfoldable pub wrap_int : ℤ → ℤ
wrap_int (pos n) = to_int (n % 2 ^ 32)
wrap_int (negsuc n) = to_int (2 ^ 32 - 1 - n % 2 ^ 32)

abbrev pub int_product : ℤ → ℤ → ℤ
int_product a b = wrap_int (a *ℤ b)

-- A ReLU that is folded into the range, and the whole range.
abbrev pub relu : ℤ → Requant
relu zp = record { output_zp = zp; act_min = zp; act_max = pos 127 }

abbrev pub linear : ℤ → Requant
linear zp = record { output_zp = zp; act_min = negsuc 127; act_max = pos 127 }

-- A layer behind another that may have failed.
infixl 5 ◌>>=◌
abbrev pub ◌>>=◌ : Option FeatureMap → (FeatureMap → Option FeatureMap) → Option FeatureMap
none >>= f = none
some cur >>= f = f cur

module _ (m : KwsModel) where
  abbrev pub conv_shape : Shape
  conv_shape = record {
    in_h = pos m.in_h;
    in_w = pos m.in_w;
    in_c = 1;
    filt_h = m.conv_kh;
    filt_w = m.conv_kw;
    stride_h = m.conv_stride;
    stride_w = m.conv_stride;
    pad_h = m.conv_pad;
    pad_w = m.conv_pad;
    input_zp = m.in_zp;
  }

  -- The first layer.
  unfoldable pub conv_layer : List ℤ → Option FeatureMap
  unfolding wrap_int
  conv_layer input =
      let s = conv_shape in
      if ltb_ℤ (pos kws_model_scratch)
        (int_product (int_product (pos m.conv_oc) (out_h s)) (out_w s))
      then none
      else some (record {
        cells =
            nn_conv2d_i8 s input m.conv.w m.conv.b m.conv_oc m.conv.mult m.conv.shift
              (relu m.conv_zp);
        h = out_h s;
        w = out_w s;
        c = m.conv_oc;
      })

  abbrev pub dw_shape : FeatureMap → Shape
  dw_shape cur = record {
    in_h = cur.h;
    in_w = cur.w;
    in_c = cur.c;
    filt_h = m.dw_k;
    filt_w = m.dw_k;
    stride_h = m.dw_stride;
    stride_w = m.dw_stride;
    pad_h = m.dw_pad;
    pad_w = m.dw_pad;
    input_zp = m.conv_zp;
  }

  unfoldable pub dw_layer : FeatureMap → Option FeatureMap
  dw_layer cur =
      let s = dw_shape cur in
      if ltb kws_model_scratch (size_product cur.c (out_h s) (out_w s))
      then none
      else some (record {
        cells =
            nn_depthwise_conv2d_i8 s cur.cells m.dw.w m.dw.b m.dw.mult m.dw.shift (relu m.dw_zp);
        h = out_h s;
        w = out_w s;
        c = cur.c;
      })

  abbrev pub pw_shape : FeatureMap → Shape
  pw_shape cur = record {
    in_h = cur.h;
    in_w = cur.w;
    in_c = cur.c;
    filt_h = 1;
    filt_w = 1;
    stride_h = 1;
    stride_w = 1;
    pad_h = 0;
    pad_w = 0;
    input_zp = m.dw_zp;
  }

  -- The test is on the size of the input, which is that of the output.
  unfoldable pub pw_layer : FeatureMap → Option FeatureMap
  pw_layer cur =
      let s = pw_shape cur in
      if ltb kws_model_scratch (size_product m.pw_oc cur.h cur.w)
      then none
      else some (record {
        cells = nn_conv2d_i8 s cur.cells m.pw.w m.pw.b m.pw_oc m.pw.mult m.pw.shift (relu m.pw_zp);
        h = out_h s;
        w = out_w s;
        c = m.pw_oc;
      })

  -- The maps up to the pooling: with a block they pass two more layers.
  unfoldable pub feature_map : List ℤ → Option FeatureMap
  unfolding conv_layer dw_layer pw_layer
  feature_map input =
      if ltb 0 m.n_blocks
      then (do cur ← conv_layer input; cur' ← dw_layer cur; pw_layer cur')
      else conv_layer input

  -- The average over the map, written to the second buffer.
  unfoldable pub gap_layer : FeatureMap → List ℤ
  gap_layer cur =
      nn_global_avgpool_i8 cur.cells cur.h cur.w cur.c
        (if ltb 0 m.n_blocks then m.pw_zp else m.conv_zp) m.gap_mult m.gap_shift (linear m.gap_zp)

  unfoldable pub head : FeatureMap → List ℤ
  unfolding gap_layer
  head cur =
      nn_fully_connected_i8 (gap_layer cur) cur.c m.fc_w m.fc_b m.num_classes m.gap_zp m.fc_mult
        m.fc_shift (linear m.out_zp)

  unfoldable pub kws_model_infer : List ℤ → Option (List ℤ)
  unfolding feature_map head
  kws_model_infer input = elim (feature_map input) [ none ↦ none | some cur ↦ some (head cur) ]

-- The small network of kws.c: two layers with a ReLU between them.
pub record KwsMlp : Type 0 where
  pub in_dim : ℕ
  pub hidden_dim : ℕ
  pub num_classes : ℕ
  pub w1 : List ℤ
  pub b1 : Option (List ℤ)
  pub in_zp : ℤ
  pub hidden_zp : ℤ
  pub w1_mult : ℤ
  pub w1_shift : ℤ
  pub w2 : List ℤ
  pub b2 : Option (List ℤ)
  pub out_zp : ℤ
  pub w2_mult : ℤ
  pub w2_shift : ℤ

unfoldable pub kws_mlp_forward : KwsMlp → List ℤ → List ℤ
kws_mlp_forward m input =
    let hidden =
      nn_fully_connected_i8 input m.in_dim m.w1 m.b1 m.hidden_dim m.in_zp m.w1_mult m.w1_shift
        (relu m.hidden_zp) in
    nn_fully_connected_i8 hidden m.hidden_dim m.w2 m.b2 m.num_classes m.hidden_zp m.w2_mult
      m.w2_shift (linear m.out_zp)
