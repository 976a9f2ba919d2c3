-- ===== src/StreamClient/Room.antt =====
-- The test of the scratch buffer in `stream_client_run`, against what a chunk needs.
use esp32s3_inmp.Base.{
  ℕ, zero, suc, ◌+◌, ◌/◌, ◌^◌, ◌≤◌, ◌<◌, ◌≡◌, u32, sub32, false, Bytes, [], ◌∷◌, ◌++◌, some, ltb,
  length, length-append, arith,
}
use esp32s3_inmp.StreamProto.{
  hex_digits, hex_digits_loop, stream_proto_chunk_overhead, stream_proto_encode_chunk,
  encode_chunk_in, write_hex,
}
use esp32s3_inmp.StreamProto.Hex.{length-write_hex}
use esp32s3_inmp.RoundTrip.Hex.{hex_digits_bounds}

pub hex_digits_loop_mono : (fuel n m : ℕ) → n ≤ m → hex_digits_loop fuel n ≤ hex_digits_loop fuel m
unfolding hex_digits_loop
hex_digits_loop_mono zero n m le = omega arith
hex_digits_loop_mono (suc fuel) n m le =
    let shorter : n / 16 ≤ m / 16 = omega arith in
    ground (arith, hex_digits_loop_mono fuel (n / 16) (m / 16) shorter)

-- When the test of the scratch buffer's size has passed, the part in front of the samples has room for
-- every chunk: a payload that is not empty and at most a frame is encoded whole, so no session fails for
-- want of room behind its header. Frames are below 2^30 bytes and buffers below 2^32.
pub chunk_has_room :
    (frame scratch_len : ℕ) (p : Bytes)
    → frame < 2 ^ 30
    → scratch_len < 2 ^ 32
    → ltb scratch_len (u32 (frame + stream_proto_chunk_overhead frame)) ≡ false
    → 0 < length p
    → length p ≤ frame
    → let (len, out) = stream_proto_encode_chunk (some (sub32 scratch_len frame)) p in
      (0 < len) × (len ≡ length out) × (frame + len ≤ scratch_len)
unfolding stream_proto_chunk_overhead stream_proto_encode_chunk encode_chunk_in hex_digits
chunk_has_room frame scratch_len p small buf room some_ le = ground (
  arith,
  hex_digits_loop_mono 16 (length p) frame le,
  hex_digits_bounds frame,
  hex_digits_bounds (length p),
  length-append (write_hex (length p)) (13 ∷ 10 ∷ (p ++ (13 ∷ 10 ∷ []))),
  length-append p (13 ∷ 10 ∷ []),
  length-write_hex (length p),
)
