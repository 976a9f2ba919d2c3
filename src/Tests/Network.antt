-- ===== src/Tests/Network.antt =====
-- The network at concrete inputs: one cell, one channel, and layers that double or halve.
use esp32s3_inmp.Base.{pos, negsuc, ◌^◌, [], ◌∷◌, some, none}
use esp32s3_inmp.Quant.Nearest.{Nearest}
use esp32s3_inmp.Kernels.Layers.Outputs.{Outputs}
use esp32s3_inmp.KwsModel.{Weights, KwsModel}
use esp32s3_inmp.KwsModel.Fits.{Fits}

abbrev twice : Weights
twice = record { w = pos 2 ∷ []; b = none; mult = pos (2 ^ 30) ∷ []; shift = pos 1 ∷ [] }

abbrev tiny : KwsModel
tiny = record {
  in_h = 1;
  in_w = 1;
  conv = twice;
  conv_oc = 1;
  conv_kh = 1;
  conv_kw = 1;
  conv_stride = 1;
  conv_pad = 0;
  n_blocks = 1;
  dw = twice;
  dw_k = 1;
  dw_stride = 1;
  dw_pad = 0;
  pw = twice;
  pw_oc = 1;
  gap_mult = pos (2 ^ 30);
  gap_shift = negsuc 0;
  fc_w = pos 1 ∷ negsuc 0 ∷ [];
  fc_b = some (pos 3 ∷ pos 4 ∷ []);
  fc_mult = pos (2 ^ 30);
  fc_shift = pos 1;
  num_classes = 2;
  in_zp = negsuc 0;
  conv_zp = pos 0;
  dw_zp = pos 0;
  pw_zp = pos 0;
  gap_zp = pos 0;
  out_zp = negsuc 1;
}
