-- ===== src/Tests/Client.antt =====
-- The streaming session of the client.
use esp32s3_inmp.Base.{
  pos, negsuc, ℕ, ◌+◌, ◌≤◌, ◌<◌, ◌≡◌, refl, false, [], ◌∷◌, some, codes, length, arith, u32, sub32,
  ltb,
}
use esp32s3_inmp.StreamProto.{
  stream_proto_build_request_header, header_of, append_header, built, append, append_u32, decimal,
  decimal_loop, stream_proto_chunk_overhead, stream_proto_encode_chunk, hex_digits, hex_digits_loop,
}
use esp32s3_inmp.StreamClient.{StreamTransport, PcmSource, StreamClientCfg, stream_client_run}
use esp32s3_inmp.StreamClient.Ends.{Progresses, ReadsUpTo, EndsWell, stream_client_run-EndsWell}
use esp32s3_inmp.StreamClient.Room.{chunk_has_room}

-- A transport that takes one byte at a time, counts them, and never has anything to say.
abbrev slow : StreamTransport ℕ
slow = record { send = λ u p. (pos 1, u + 1); recv = λ u n. (negsuc 1, u) }

slow-Progresses : Progresses slow
slow-Progresses u c p e = cc

-- A source that always has the same two bytes.
abbrev same_bytes : PcmSource ℕ
same_bytes = record { read = λ u n. (5 ∷ 6 ∷ [], u) }

same_bytes-ReadsUpTo : ReadsUpTo same_bytes 2
same_bytes-ReadsUpTo u = omega arith

abbrev client : StreamClientCfg
client = record {
  proto = record {
    path = some (codes "/v1/stream");
    host = some (codes "h");
    session_id = some (codes "s");
    wake_conf_milli = 900;
  };
  frame_bytes = 2;
  max_chunks = 3;
}

header_length : length (stream_proto_build_request_header (some 400) client.proto).1 ≡ 157
unfolding stream_proto_build_request_header header_of built append_header append append_u32 decimal
    decimal_loop
header_length = refl

stream_client_run-EndsWell_example :
    EndsWell (stream_client_run 200 (some client) (some slow) (some same_bytes) (some 400) 0)
stream_client_run-EndsWell_example =
    stream_client_run-EndsWell client slow same_bytes 400 200 0 slow-Progresses same_bytes-ReadsUpTo
      (omega arith) (omega arith) (omega (arith, header_length))

room_ok : ltb 9 (u32 (2 + stream_proto_chunk_overhead 2)) ≡ false
unfolding stream_proto_chunk_overhead hex_digits hex_digits_loop
room_ok = refl

chunk_has_room_example :
    let (len, out) = stream_proto_encode_chunk (some (sub32 9 2)) (5 ∷ 6 ∷ []) in
    (0 < len) × (len ≡ length out) × (2 + len ≤ 9)
chunk_has_room_example =
    chunk_has_room 2 9 (5 ∷ 6 ∷ []) (omega arith) (omega arith) room_ok (omega arith) (omega arith)
