-- ===== src/Tests/Posix.antt =====
-- A session of the host's client at concrete inputs, and what the server makes of it.
use native.Mathlib.Nat.{le_refl}
use esp32s3_inmp.Base.{
  ◌+◌, ltb, u32, List, ◌<◌, ◌&&◌, ℕ, ◌⊎◌, ◌≢◌, ◌≤◌, ◌≡◌, refl, sym, true, false, Bytes, [], ◌∷◌,
  ◌++◌, Option, some, codes, length, take, arith, append-nil, take_all, ap, Bool,
}
use esp32s3_inmp.Fsm.{Event, session_timeout}
use esp32s3_inmp.StreamProto.{
  stream_proto_build_request_header, header_of, append_header, built, append, append_u32, decimal,
  decimal_loop, stream_proto_chunk_overhead, stream_proto_encode_chunk, encode_chunk_in, write_hex,
  write_hex_loop, hex_digit, hex_digits, hex_digits_loop, stream_proto_encode_final,
}
use esp32s3_inmp.StreamClient.{
  StreamClientCfg, stream_client_run, run_session, chunk_loop, send_encoded, send_all, poll_close,
  poll_of, wait_close, end_of_speech, after_send, after_last_send,
}
use esp32s3_inmp.StreamClient.Ends.{Progresses}
use esp32s3_inmp.StreamClient.Sends.{Carries, frames}
use esp32s3_inmp.StreamClient.Sends.Loop.{to_send, stream_client_run_sends}
use esp32s3_inmp.NetSocket.{took, none_yet}
use esp32s3_inmp.PosixTransport.{
  HostSockets, PcmBufSrc, posix_transport, pcm_buffer_source, tr_send, send_loop, tr_recv,
  recv_answer, buf_read,
}
use esp32s3_inmp.PosixTransport.Carried.{
  Remains, posix_Carries, posix-Progresses, pcm_buffer-ReadsUpTo,
}
use esp32s3_inmp.HttpIngest.Line.{AllPlain, split_at, before_too, c_str}
use esp32s3_inmp.HttpIngest.Headers.{IsLine, AllLines, text_of}
use esp32s3_inmp.HttpIngest.{
  parse_request_line, parse_method, parse_path, http_ingest_init, HttpIngest, done,
}
use esp32s3_inmp.HttpIngest.Feed.Cuts.{feed_all}
use esp32s3_inmp.RoundTrip.Body.{keep_spans}
use esp32s3_inmp.RoundTrip.Session.{session_received, header, new_parser}

-- Sockets that take all that they are given; their state is what is on the wire.
abbrev wide_sockets : HostSockets Bytes
wide_sockets = record {
  send = λ w p. (took (length p), w ++ p);
  recv = λ w n. (none_yet, w);
  to_come = λ w. 0;
  stalls = λ w c p. omega arith;
}

abbrev three_samples : PcmBufSrc
three_samples = record { bytes = 1 ∷ 2 ∷ 3 ∷ 4 ∷ 5 ∷ 6 ∷ []; len = 6; offset = 0 }

three_samples-Remains : Remains three_samples (1 ∷ 2 ∷ 3 ∷ 4 ∷ 5 ∷ 6 ∷ [])
three_samples-Remains = (refl, omega arith, omega arith, refl)

all_taken : (n : ℕ) (p : Bytes) → length p ≤ n → (length p ≤ length p) × (p ≡ take (length p) p)
all_taken n p h = (omega arith, sym (take_all (length p) p (omega arith)))

abbrev host_client : StreamClientCfg
host_client = record {
  proto = record {
    path = some (codes "/v1/stream");
    host = some (codes "h");
    session_id = some (codes "demo");
    wake_conf_milli = 950;
  };
  frame_bytes = 2;
  max_chunks = 5;
}

carried :
    Carries
      (posix_transport wide_sockets)
      (pcm_buffer_source wide_sockets)
      (λ u. u.0)
      (λ u xs. Remains u.1 xs)
      2
carried =
    posix_Carries wide_sockets (λ w. w)
      (λ w p. (omega arith, ap (λ q. w ++ q) (all_taken (length p) p (omega arith)).1)) 2
      (λ w n. refl)

wide-Progresses : Progresses (posix_transport wide_sockets)
wide-Progresses =
    posix-Progresses wide_sockets (λ w. w)
      (λ w p. (omega arith, ap (λ q. w ++ q) (all_taken (length p) p (omega arith)).1))

length-header : length (stream_proto_build_request_header (some 400) host_client.proto).1 ≤ 200
unfolding stream_proto_build_request_header header_of append_header built append append_u32 decimal
    decimal_loop
length-header = omega arith

stream_client_run_sends_example :
    let xs : Bytes = 1 ∷ 2 ∷ 3 ∷ 4 ∷ 5 ∷ 6 ∷ [] in
    let q =
      to_send host_client
        (posix_transport wide_sockets)
        (pcm_buffer_source wide_sockets)
        400
        (λ u. u.0)
        (λ u xs. Remains u.1 xs)
        carried
        xs in
    (ev : Event) × (u' : Bytes × PcmBufSrc) × (n : ℕ) × (stream_client_run 200
        (some host_client)
        (some (posix_transport wide_sockets))
        (some (pcm_buffer_source wide_sockets))
        (some 400)
        ([], three_samples)
      ≡ some (ev, u'))
    × (n ≤ length q)
    × (u'.0 ≡ [] ++ take n q)
    × ((n ≡ length q) ⊎ (ev ≢ session_timeout) ⊎ (5 ≤ length (frames 5 2 xs)))
stream_client_run_sends_example =
    stream_client_run_sends host_client (posix_transport wide_sockets)
      (pcm_buffer_source wide_sockets) 400 (λ u. u.0) (λ u xs. Remains u.1 xs) carried 200
      ([], three_samples) (1 ∷ 2 ∷ 3 ∷ 4 ∷ 5 ∷ 6 ∷ []) three_samples-Remains wide-Progresses
      (pcm_buffer-ReadsUpTo wide_sockets 2) (omega arith) (omega arith) (omega arith) length-header

-- The session runs to its end.
abbrev is_timeout : Option (Event × (Bytes × PcmBufSrc)) → Bool
is_timeout (some (session_timeout, u)) = true
is_timeout _ = false

at_end :
    is_timeout (
      stream_client_run 200
        (some host_client)
        (some (posix_transport wide_sockets))
        (some (pcm_buffer_source wide_sockets))
        (some 400)
        ([], three_samples))
    ≡ true
unfolding stream_client_run run_session chunk_loop send_encoded send_all poll_close poll_of
    wait_close end_of_speech after_send after_last_send stream_proto_build_request_header header_of
    append_header built append append_u32 decimal decimal_loop stream_proto_chunk_overhead
    stream_proto_encode_chunk encode_chunk_in write_hex write_hex_loop hex_digit hex_digits
    hex_digits_loop stream_proto_encode_final tr_send send_loop tr_recv recv_answer buf_read
at_end = refl

ended_by :
    (r : Option (Event × (Bytes × PcmBufSrc)))
    → is_timeout r ≡ true
    → (u : Bytes × PcmBufSrc) × (r ≡ some (session_timeout, u))
ended_by (some (session_timeout, u)) e = (u, refl)
ended_by _ e = absurd cc

ended :
    (u : Bytes × PcmBufSrc) × (stream_client_run 200
        (some host_client)
        (some (posix_transport wide_sockets))
        (some (pcm_buffer_source wide_sockets))
        (some 400)
        ([], three_samples)
      ≡ some (session_timeout, u))
ended = ended_by _ at_end

-- The request header, which the parser reads as one.
abbrev host_header : Bytes
host_header =
    header host_client (posix_transport wide_sockets) (pcm_buffer_source wide_sockets) 400
      (λ u. u.0) (λ u xs. Remains u.1 xs) carried

abbrev request : Bytes
request = codes "POST /v1/stream HTTP/1.1"

abbrev header_lines : List Bytes
header_lines =
    codes "Host: h"
    ∷ codes "Transfer-Encoding: chunked"
    ∷ codes "Content-Type: application/octet-stream"
    ∷ codes "X-SimonSays-Session: demo"
    ∷ codes "X-SimonSays-Wake-Conf: 950"
    ∷ []

host_header-lines : host_header ≡ text_of (request ∷ header_lines)
unfolding stream_proto_build_request_header header_of append_header built append append_u32 decimal
    decimal_loop
host_header-lines = refl

abbrev is_plain : Bytes → Bool
is_plain [] = true
is_plain (c ∷ s) = ltb 10 c && is_plain s

is_plain-AllPlain : (s : Bytes) → is_plain s ≡ true → AllPlain s
is_plain-AllPlain [] e = tt
is_plain-AllPlain (c ∷ s) e = (ground (arith, e), is_plain-AllPlain s (ground (arith, e)))

line : (s : Bytes) → 0 < length s → is_plain s ≡ true → length s < 511 → IsLine s
line s some_ plain short = record {
  some_text = some_;
  plain = is_plain-AllPlain s plain;
  short = short;
}

header_lines-AllLines : AllLines header_lines
header_lines-AllLines = (
  line (codes "Host: h") (omega arith) refl (omega arith),
  (
    line (codes "Transfer-Encoding: chunked") (omega arith) refl (omega arith),
    (
      line (codes "Content-Type: application/octet-stream") (omega arith) refl (omega arith),
      (
        line (codes "X-SimonSays-Session: demo") (omega arith) refl (omega arith),
        (line (codes "X-SimonSays-Wake-Conf: 950") (omega arith) refl (omega arith), tt),
      ),
    ),
  ),
)

request_ok : (parse_request_line (record new_parser { line = request })).0 ≡ true
unfolding parse_request_line parse_method parse_path split_at before_too c_str http_ingest_init
request_ok = refl

room_ok : ltb 400 (u32 (2 + stream_proto_chunk_overhead 2)) ≡ false
unfolding stream_proto_chunk_overhead hex_digits hex_digits_loop
room_ok = refl

session_received_example :
    let xs : Bytes = 1 ∷ 2 ∷ 3 ∷ 4 ∷ 5 ∷ 6 ∷ [] in
    (ing : HttpIngest Bytes) × (rest : Bytes) × (feed_all keep_spans
        (length (ended.0.0 ++ []))
        new_parser
        (ended.0.0 ∷ [])
      ≡ some ing)
    × (xs ≡ ing.user ++ rest)
    × (((ing.user ≡ xs) × (ing.complete ≡ true) × (ing.state ≡ done))
        ⊎ (session_timeout ≢ session_timeout)
        ⊎ (5 ≤ length (frames 5 2 xs)))
session_received_example =
    session_received host_client (posix_transport wide_sockets) (pcm_buffer_source wide_sockets) 400
      (λ u. u.0) (λ u xs. Remains u.1 xs) carried 200 ([], three_samples) ended.0 session_timeout
      (1 ∷ 2 ∷ 3 ∷ 4 ∷ 5 ∷ 6 ∷ []) (ended.0.0 ∷ []) (length (ended.0.0 ++ [])) request header_lines
      three_samples-Remains (omega arith) (omega arith) (omega arith) room_ok ended.1
      (sym (append-nil ended.0.0)) (le_refl (length (ended.0.0 ++ []))) host_header-lines
      (line request (omega arith) refl (omega arith)) header_lines-AllLines request_ok
