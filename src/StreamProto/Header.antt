-- ===== src/StreamProto/Header.antt =====
-- The request header and the buffer that it is built in.
use esp32s3_inmp.Base.{
  true, ℕ, zero, suc, ◌+◌, ◌/◌, ◌%◌, ◌^◌, ◌≤◌, ◌<◌, Bytes, [], ◌∷◌, some, codes, length,
  length-append, arith,
}
use esp32s3_inmp.StreamProto.{
  Builder, append, append_u32, decimal, decimal_loop, append_header, built, header_of,
}

decimal_loop-le : (fuel v : ℕ) (rev : Bytes) → length (decimal_loop fuel v rev) ≤ fuel + length rev
unfolding decimal_loop
decimal_loop-le zero v rev = omega arith
decimal_loop-le (suc fuel) v rev =
    ground (arith, decimal_loop-le fuel (v / 10) ((b'0' + v % 10) ∷ rev))

-- A `uint32_t` has at most ten digits.
pub length-decimal : (v : ℕ) → length (decimal v) ≤ 10
unfolding decimal
length-decimal v = ground (arith, decimal_loop-le 10 v [])

module _ (cap : ℕ) (small : cap < 2 ^ 31) where
  append-le :
      (s : Bytes) (b : Builder)
      → length s < 2 ^ 31
      → length b.out ≤ cap
      → length (append cap s b).out ≤ cap
  unfolding append
  append-le s b h le = ground (arith, length-append b.out s)

  -- What has been written of the header stays in the buffer, if its parts are shorter than 2^31 bytes.
  pub header-le :
      (path host session_id : Bytes) (conf : ℕ)
      → length path < 2 ^ 31
      → length host < 2 ^ 31
      → length session_id < 2 ^ 31
      → length (header_of (some cap) (some path) (some host) (some session_id) conf).1 ≤ cap
  unfolding header_of built append_header append_u32
  header-le path host session_id conf p h s =
      let b0 : Builder = record { ok = true; out = [] } in
      let b1 : Builder = append cap (codes "POST ") b0 in
      let b2 : Builder = append cap path b1 in
      let b3 : Builder = append cap (codes " HTTP/1.1\r\nHost: ") b2 in
      let b4 : Builder = append cap host b3 in
      let fixed : Bytes =
        codes
          "\r\nTransfer-Encoding: chunked\r\nContent-Type: application/octet-stream\r\nX-SimonSays-Session: " in
      let b5 : Builder = append cap fixed b4 in
      let b6 : Builder = append cap session_id b5 in
      let b7 : Builder = append cap (codes "\r\nX-SimonSays-Wake-Conf: ") b6 in
      let b8 : Builder = append cap (decimal conf) b7 in
      let p1 = append-le (codes "POST ") b0 (omega arith) (omega arith) in
      let p2 = append-le path b1 p p1 in
      let p3 = append-le (codes " HTTP/1.1\r\nHost: ") b2 (omega arith) p2 in
      let p4 = append-le host b3 h p3 in
      let p5 = append-le fixed b4 (omega arith) p4 in
      let p6 = append-le session_id b5 s p5 in
      let p7 = append-le (codes "\r\nX-SimonSays-Wake-Conf: ") b6 (omega arith) p6 in
      let p8 = append-le (decimal conf) b7 (omega (arith, length-decimal conf)) p7 in
      append-le (codes "\r\n\r\n") b8 (omega arith) p8
