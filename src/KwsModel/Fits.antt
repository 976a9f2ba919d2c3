-- ===== src/KwsModel/Fits.antt =====
-- Each layer of kws_model.c on a map, and what it writes.
use esp32s3_inmp.Base.{
  ℤ, pos, negsuc, ◌*◌, ◌≤◌, ◌≡◌, refl, sym, subst, Bool, true, false, List, Option, none, some, ltb,
  if◌then◌else◌, length, arith,
}
use esp32s3_inmp.Base.Int.{◌≤ℤ◌, ltb_ℤ, pos_part}
use esp32s3_inmp.Quant.{Requant}
use esp32s3_inmp.Quant.Nearest.{IsRange}
use esp32s3_inmp.Kernels.Layers.{
  out_h, out_w, conv_acc, depthwise_acc, nn_conv2d_i8, nn_depthwise_conv2d_i8,
}
use esp32s3_inmp.Kernels.Layers.Outputs.{
  Outputs, Outputs-length, each_output-Outputs, nn_global_avgpool_i8-Outputs,
  nn_fully_connected_i8-Outputs,
}
use esp32s3_inmp.KwsModel.{
  KwsModel, FeatureMap, kws_model_scratch, size_product, int_product, relu, linear, conv_shape,
  dw_shape, pw_shape, conv_layer, dw_layer, pw_layer, gap_layer, head,
}
use esp32s3_inmp.KwsModel.Sizes.{
  IsSmall, IsSmallInt, int_product_fits, size_product_fits, out_size_one,
}

-- The zero points of the layers are values of `int8_t`.
pub record ZeroPoints (m : KwsModel) : Type 0 where
  pub conv_lo : negsuc 127 ≤ℤ m.conv_zp
  pub conv_hi : m.conv_zp ≤ℤ pos 127
  pub dw_lo : negsuc 127 ≤ℤ m.dw_zp
  pub dw_hi : m.dw_zp ≤ℤ pos 127
  pub pw_lo : negsuc 127 ≤ℤ m.pw_zp
  pub pw_hi : m.pw_zp ≤ℤ pos 127

relu-IsRange : (zp : ℤ) → negsuc 127 ≤ℤ zp → zp ≤ℤ pos 127 → IsRange (relu zp)
relu-IsRange zp lo hi = record { low = lo; ordered = hi; high = omega arith }

linear-IsRange : (zp : ℤ) → IsRange (linear zp)
linear-IsRange zp = record { low = omega arith; ordered = omega arith; high = omega arith }

-- A layer that goes on has written outputs of its range, one for each channel of each place, and no more
-- than the scratch buffer holds.
abbrev pub Fits : Requant → Option FeatureMap → Type 0
Fits r none = Unit {0}
Fits r (some cur) =
    Outputs r (pos_part cur.h * (pos_part cur.w * (cur.c * 1))) cur.cells
    × (length cur.cells ≤ kws_model_scratch)

-- A layer behind its test.
tested-Fits :
    (r : Requant) (too_large : Bool) (cur : FeatureMap)
    → Outputs r (pos_part cur.h * (pos_part cur.w * (cur.c * 1))) cur.cells
    → (too_large ≡ false → pos_part cur.h * (pos_part cur.w * (cur.c * 1)) ≤ kws_model_scratch)
    → Fits r (if too_large then none else some cur)
tested-Fits r true cur o le = tt
tested-Fits r false cur o le = (
  o,
  omega (
    arith,
    Outputs-length r (pos_part cur.h * (pos_part cur.w * (cur.c * 1))) cur.cells o,
    le refl,
  ),
)

module _ (m : KwsModel) (z : ZeroPoints m) where
  pub conv_layer-Fits :
      (input : List ℤ)
      → IsSmallInt m.conv_oc (out_h (conv_shape m)) (out_w (conv_shape m))
      → Fits (relu m.conv_zp) (conv_layer m input)
  unfolding conv_layer nn_conv2d_i8
  conv_layer-Fits input small =
      let s = conv_shape m in
      tested-Fits (relu m.conv_zp)
        (ltb_ℤ (pos kws_model_scratch)
          (int_product (int_product (pos m.conv_oc) (out_h s)) (out_w s)))
        _
        (each_output-Outputs (relu m.conv_zp) (relu-IsRange m.conv_zp z.conv_lo z.conv_hi) s
          m.conv_oc (conv_acc s input m.conv.w m.conv.b) m.conv.mult m.conv.shift)
        (λ e. int_product_fits m.conv_oc (out_h s) (out_w s) small e)

  pub dw_layer-Fits :
      (cur : FeatureMap)
      → IsSmall cur.c (out_h (dw_shape m cur)) (out_w (dw_shape m cur))
      → Fits (relu m.dw_zp) (dw_layer m cur)
  unfolding dw_layer nn_depthwise_conv2d_i8
  dw_layer-Fits cur small =
      let s = dw_shape m cur in
      tested-Fits (relu m.dw_zp) (ltb kws_model_scratch (size_product cur.c (out_h s) (out_w s))) _
        (each_output-Outputs (relu m.dw_zp) (relu-IsRange m.dw_zp z.dw_lo z.dw_hi) s cur.c
          (depthwise_acc s cur.cells m.dw.w m.dw.b) m.dw.mult m.dw.shift)
        (λ e. size_product_fits cur.c (out_h s) (out_w s) small e)

  pub pw_layer-Fits :
      (cur : FeatureMap) → IsSmall m.pw_oc cur.h cur.w → Fits (relu m.pw_zp) (pw_layer m cur)
  unfolding pw_layer nn_conv2d_i8
  pw_layer-Fits cur small =
      let s = pw_shape m cur in
      tested-Fits (relu m.pw_zp) (ltb kws_model_scratch (size_product m.pw_oc cur.h cur.w)) _
        (each_output-Outputs (relu m.pw_zp) (relu-IsRange m.pw_zp z.pw_lo z.pw_hi) s m.pw_oc
          (conv_acc s cur.cells m.pw.w m.pw.b) m.pw.mult m.pw.shift)
        (λ e.
          subst (λ h. pos_part h * (pos_part (out_w s) * (m.pw_oc * 1)) ≤ kws_model_scratch)
            (sym (out_size_one cur.h))
            (subst (λ w. pos_part cur.h * (pos_part w * (m.pw_oc * 1)) ≤ kws_model_scratch)
              (sym (out_size_one cur.w)) (size_product_fits m.pw_oc cur.h cur.w small e)))

  -- The pooling writes one value for each channel.
  pub length-gap_layer : (cur : FeatureMap) → length (gap_layer m cur) ≡ cur.c
  unfolding gap_layer
  length-gap_layer cur = omega (
    arith,
    Outputs-length (linear m.gap_zp) (cur.c * 1) _ (
        nn_global_avgpool_i8-Outputs (linear m.gap_zp) (linear-IsRange m.gap_zp) cur.cells cur.h
          cur.w cur.c (if ltb 0 m.n_blocks then m.pw_zp else m.conv_zp) m.gap_mult m.gap_shift),
  )

  pub head-Outputs : (cur : FeatureMap) → Outputs (linear m.out_zp) (m.num_classes * 1) (head m cur)
  unfolding head
  head-Outputs cur =
      nn_fully_connected_i8-Outputs (linear m.out_zp) (linear-IsRange m.out_zp) (gap_layer m cur)
        cur.c m.fc_w m.fc_b m.num_classes m.gap_zp m.fc_mult m.fc_shift

  pub logits_out :
      (o : Option FeatureMap) (logits : List ℤ)
      → (elim o [ none ↦ none | some cur ↦ some (head m cur) ]) ≡ some logits
      → Outputs (linear m.out_zp) (m.num_classes * 1) logits
  logits_out none logits e = cc
  logits_out (some cur) logits e =
      let same : head m cur ≡ logits = cc in
      subst (Outputs (linear m.out_zp) (m.num_classes * 1)) same (head-Outputs cur)
