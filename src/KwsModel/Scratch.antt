-- ===== src/KwsModel/Scratch.antt =====
-- The scratch buffers of the network, and what its layers write to them.
use esp32s3_inmp.Base.{ℤ, ℕ, ◌≤◌, ◌<◌, ◌≡◌, Option, none, some, length}
use esp32s3_inmp.Base.Int.{pos_part}
use esp32s3_inmp.Kernels.Layers.{out_size, out_h, out_w}
use esp32s3_inmp.Kernels.Layers.Outputs.{Outputs}
use esp32s3_inmp.KwsModel.{KwsModel, FeatureMap, kws_model_scratch, conv_shape, gap_layer}
use esp32s3_inmp.KwsModel.Sizes.{IsSmall, IsSmallInt}
use esp32s3_inmp.KwsModel.Fits.{ZeroPoints, Fits}

module _ (m : KwsModel) (z : ZeroPoints m) where
  -- The sizes of the maps: those of the first layer, and those of the block.
  abbrev pub h1 : ℤ
  h1 = out_h (conv_shape m)

  abbrev pub w1 : ℤ
  w1 = out_w (conv_shape m)

  abbrev pub h2 : ℤ
  h2 = out_size h1 m.dw_pad m.dw_k m.dw_stride

  abbrev pub w2 : ℤ
  w2 = out_size w1 m.dw_pad m.dw_k m.dw_stride

  -- The size of a map.
  abbrev HasSize : ℤ → ℤ → ℕ → Option FeatureMap → Type 0
  HasSize h w c none = Unit {0}
  HasSize h w c (some cur) = (cur.h ≡ h) × (cur.w ≡ w) × (cur.c ≡ c)

  -- The pooling of a map writes one value for each channel, and fits the second buffer.
  abbrev pub Pools : Option FeatureMap → Type 0
  Pools none = Unit {0}
  Pools (some cur) =
      (length (gap_layer m cur) ≡ cur.c) × (length (gap_layer m cur) ≤ kws_model_scratch)

  -- The sizes of a model: the products that are tested do not overflow, and no map is empty.
  pub record IsSized : Type 0 where
    pub conv : IsSmallInt m.conv_oc h1 w1
    pub rows : 0 < pos_part h1
    pub columns : 0 < pos_part w1
    pub dw : 0 < m.n_blocks → IsSmall m.conv_oc h2 w2
    pub pw : 0 < m.n_blocks → IsSmall m.pw_oc h2 w2
    pub block_rows : 0 < m.n_blocks → 0 < pos_part h2
    pub block_columns : 0 < m.n_blocks → 0 < pos_part w2
