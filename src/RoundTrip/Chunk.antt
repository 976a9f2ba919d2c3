-- ===== src/RoundTrip/Chunk.antt =====
-- One chunk, a sequence of chunks, and the end of the body.
use esp32s3_inmp.Base.{
  ℕ, ◌^◌, ◌≤◌, ◌<◌, ◌≡◌, refl, sym, ◌∙◌, ap, true, Bytes, [], ◌∷◌, ◌++◌, append_assoc, Option, none,
  some, arith, length,
}
use esp32s3_inmp.StreamProto.{
  write_hex, stream_proto_encode_chunk, stream_proto_chunk_overhead, crlf, final_chunk,
}
use esp32s3_inmp.StreamProto.Hex.{length-write_hex}
use esp32s3_inmp.HttpIngest.Line.{c_str, parse_chunk_size, hex_value}
use esp32s3_inmp.HttpIngest.{
  chunk_size, chunk_data, chunk_crlf, trailer, done, HttpIngest, Callbacks, call_payload,
}
use esp32s3_inmp.HttpIngest.Feed.{SplitsFor, pushes}
use esp32s3_inmp.HttpIngest.Feed.Spans.{data_means, data_done_last}
use esp32s3_inmp.HttpIngest.Whole.{
  c_str_plain, push_whole, line_done_size, line_done_last, line_done_crlf, line_done_trailer,
}
use esp32s3_inmp.RoundTrip.Hex.{parse-write_hex, AllPlain-write_hex, hex_digits_bounds}

-- The bytes of a chunk, by the format of RFC 7230.
pub chunk_bytes : Bytes → Bytes
chunk_bytes p = write_hex (length p) ++ (crlf ++ (p ++ crlf))

-- What the client needs for a chunk: a payload, and a buffer for its encoding, which takes as much as the
-- payload, its length in hexadecimal digits and two line ends.
pub record Fits (cap : ℕ) (p : Bytes) : Type 0 where
  pub some_payload : 0 < length p
  pub small : length p < 2 ^ 31
  pub room : stream_proto_chunk_overhead (length p) ≤ cap

pub encode_chunk_lem :
    (cap : ℕ) (p : Bytes)
    → Fits cap p
    → stream_proto_encode_chunk (some cap) p ≡ (length (chunk_bytes p), chunk_bytes p)
unfolding stream_proto_encode_chunk stream_proto_chunk_overhead chunk_bytes
encode_chunk_lem cap p f = ground (arith, hex_digits_bounds (length p))

-- A parser at the start of a chunk.
pub record AtChunk {U : Type 0} (ing : HttpIngest U) : Type 0 where
  pub at_size : ing.state ≡ chunk_size
  pub no_line : ing.line ≡ []
  pub nothing_left : ing.chunk_remaining ≡ 0

module _ {U : Type 0} (cb : Callbacks U) where
  -- The parser behind the CRLF of a chunk is the one in front of the chunk, with the payload handed on.
  chunk_end :
      (o : Option (U → Bytes → U)) (ing : HttpIngest U) (p : Bytes) (n : ℕ)
      → AtChunk ing
      → record (call_payload cb o p
          (record ing { line = []; chunk_remaining = n; state = chunk_data })) {
            line = [];
            chunk_remaining = 0;
            state = chunk_size;
          }
        ≡ call_payload cb o p ing
  chunk_end none ing p n a = ground arith
  chunk_end (some f) ing p n a = ground arith

  call_payload-line :
      (o : Option (U → Bytes → U)) (ing : HttpIngest U) (p : Bytes)
      → (call_payload cb o p ing).line ≡ ing.line
  call_payload-line none ing p = refl
  call_payload-line (some f) ing p = refl

  pub call_payload-AtChunk :
      (o : Option (U → Bytes → U)) (ing : HttpIngest U) (p : Bytes)
      → AtChunk ing
      → AtChunk (call_payload cb o p ing)
  call_payload-AtChunk none ing p a = a
  call_payload-AtChunk (some f) ing p a = record {
    at_size = a.at_size;
    no_line = a.no_line;
    nothing_left = a.nothing_left;
  }

  -- The size line of a chunk.
  push_size :
      (ing : HttpIngest U) (n : ℕ) (rest : Bytes)
      → 0 < n
      → n < 2 ^ 31
      → AtChunk ing
      → pushes cb ing (write_hex n ++ (crlf ++ rest))
        ≡ pushes cb (record ing { line = []; chunk_remaining = n; state = chunk_data }) rest
  push_size ing n rest pos small a =
      push_whole cb (write_hex n) ing rest (rw a.at_size) a.no_line (AllPlain-write_hex n)
        (omega (arith, length-write_hex n, hex_digits_bounds n (omega arith)))
      ∙ ap (λ i. pushes cb i rest)
          (line_done_size cb (record ing { line = write_hex n }) n a.at_size
            (ap parse_chunk_size (c_str_plain (write_hex n) (AllPlain-write_hex n))
              ∙ parse-write_hex n (omega arith))
            pos (omega arith))

  -- The payload of a chunk and its CRLF, in a parser that has just read the size.
  push_payload :
      (ing : HttpIngest U) (p rest : Bytes)
      → SplitsFor cb.on_payload
      → 0 < length p
      → AtChunk ing
      → pushes cb
          (record ing { line = []; chunk_remaining = length p; state = chunk_data })
          (p ++ (crlf ++ rest))
        ≡ pushes cb (call_payload cb cb.on_payload p ing) rest
  push_payload ing [] rest s pos a = absurd (omega arith)
  push_payload ing (c ∷ p) rest s pos a =
      let n : ℕ = length (c ∷ p) in
      let start = record ing { line = []; chunk_remaining = n; state = chunk_data } in
      let sent = call_payload cb cb.on_payload (c ∷ p) start in
      (data_means cb start c p (crlf ++ rest) s refl (omega arith)).0
      ∙ (ap (λ i. pushes cb i (crlf ++ rest)) (data_done_last cb start (c ∷ p) pos refl refl)
          ∙ (push_whole cb [] (record sent { chunk_remaining = 0; state = chunk_crlf }) rest refl
                (call_payload-line cb.on_payload start (c ∷ p)) tt (omega arith)
              ∙ ap (λ i. pushes cb i rest)
                  (line_done_crlf cb
                      (record sent { line = []; chunk_remaining = 0; state = chunk_crlf }) refl refl
                    ∙ chunk_end cb.on_payload ing (c ∷ p) n a)))

  pub push_chunk :
      (ing : HttpIngest U) (p rest : Bytes)
      → SplitsFor cb.on_payload
      → 0 < length p
      → length p < 2 ^ 31
      → AtChunk ing
      → pushes cb ing (chunk_bytes p ++ rest) ≡ pushes cb (call_payload cb cb.on_payload p ing) rest
  unfolding chunk_bytes
  push_chunk ing p rest s pos small a =
      ap (pushes cb ing) (
        append_assoc (write_hex (length p)) (crlf ++ (p ++ crlf)) rest
        ∙ ap (λ b. write_hex (length p) ++ (crlf ++ b)) (append_assoc p crlf rest))
      ∙ (push_size ing (length p) (p ++ (crlf ++ rest)) pos small a
          ∙ push_payload ing p rest s pos a)

  -- The terminating chunk.
  pub push_final :
      (ing : HttpIngest U) (rest : Bytes)
      → AtChunk ing
      → pushes cb ing (final_chunk ++ rest)
        ≡ pushes cb (record ing { complete = true; state = done }) rest
  unfolding parse_chunk_size c_str hex_value
  push_final ing rest a =
      push_whole cb (b'0' ∷ []) ing (crlf ++ rest) (rw a.at_size) a.no_line (omega arith, tt)
        (omega arith)
      ∙ (ap (λ i. pushes cb i (crlf ++ rest))
            (line_done_last cb (record ing { line = b'0' ∷ [] }) a.at_size refl)
          ∙ (push_whole cb [] (record ing { line = []; state = trailer }) rest refl refl tt
                (omega arith)
              ∙ ap (λ i. pushes cb i rest)
                  (line_done_trailer cb (record ing { line = []; state = trailer }) refl
                    ∙ (λ i. record ing { line = sym a.no_line i; complete = true; state = done }))))
