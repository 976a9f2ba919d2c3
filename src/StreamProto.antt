-- ===== src/StreamProto.antt =====
-- firmware/core/src/net/stream_proto.c: the client side of the chunked-HTTP stream.
-- A function that fills a buffer returns its result and the bytes in front of its final position; a
-- buffer argument is its capacity, `none` for NULL. C strings are their bytes, without the NUL.
-- `size_t` has the 32 bits of the ESP32-S3; the loop over hex digits has fuel for 64.
pub mod Hex
pub mod Header
use esp32s3_inmp.Base.{
  ℕ, zero, suc, ◌+◌, ◌*◌, ◌/◌, ◌%◌, ◌^◌, Bool, true, false, Bytes, [], ◌∷◌, ◌++◌, Option, none,
  some, codes, if◌then◌else◌, ◌==◌, ltb, length, get_or,
}

-- `do { d++; n >>= 4; } while (n);`
unfoldable pub hex_digits_loop : ℕ → ℕ → ℕ
hex_digits_loop zero n = 0
hex_digits_loop (suc fuel) n =
    let rest = hex_digits_loop fuel (n / 16) in if n / 16 == 0 then 1 else suc rest

unfoldable pub hex_digits : ℕ → ℕ
hex_digits n = hex_digits_loop 16 n

-- `digits[k]`
unfoldable pub hex_digit : ℕ → ℕ
hex_digit k = get_or (codes "0123456789abcdef") k 0

-- The loop of `write_hex`, which fills the digits from the last to the first.
unfoldable pub write_hex_loop : ℕ → ℕ → Bytes → Bytes
write_hex_loop zero n out = out
write_hex_loop (suc d) n out = write_hex_loop d (n / 16) (hex_digit (n % 16) ∷ out)

unfoldable pub write_hex : ℕ → Bytes
write_hex n = write_hex_loop (hex_digits n) n []

-- `buf[0..pos)` while a header is built, and the flag `ok`.
pub record Builder : Type 0 where
  pub ok : Bool
  pub out : Bytes

unfoldable pub append : ℕ → Bytes → Builder → Builder
append cap s b =
    if ltb cap ((length b.out + length s) % 2 ^ 32)
    then record b { ok = false }
    else record b { out = b.out ++ s }

-- The digits of `v`: `rev` is kept with its last entry first, so that the loop which reads it
-- backwards is the list itself.
unfoldable pub decimal_loop : ℕ → ℕ → Bytes → Bytes
decimal_loop zero v rev = rev
decimal_loop (suc fuel) v rev =
    let rest = decimal_loop fuel (v / 10) ((b'0' + v % 10) ∷ rev) in if v == 0 then rev else rest

-- Ten digits are enough for a `uint32_t`.
unfoldable pub decimal : ℕ → Bytes
decimal v = if v == 0 then b'0' ∷ [] else decimal_loop 10 v []

unfoldable pub append_u32 : ℕ → ℕ → Builder → Builder
unfolding append
append_u32 cap v b = append cap (decimal v) b

pub record StreamProtoCfg : Type 0 where
  pub path : Option Bytes
  pub host : Option Bytes
  pub session_id : Option Bytes
  pub wake_conf_milli : ℕ

-- The appends of `stream_proto_build_request_header`, in order; a failed one does not stop the next.
unfoldable pub append_header : ℕ → Bytes → Bytes → Bytes → ℕ → Builder
append_header cap path host session_id conf = append cap (codes "\r\n\r\n") (
    append_u32 cap conf (
      append cap (codes "\r\nX-SimonSays-Wake-Conf: ") (
        append cap session_id (
          append cap
            (codes
              "\r\nTransfer-Encoding: chunked\r\nContent-Type: application/octet-stream\r\nX-SimonSays-Session: ")
            (append cap host (
              append cap (codes " HTTP/1.1\r\nHost: ") (
                append cap path (append cap (codes "POST ") (record { ok = true; out = [] })))))))))

unfoldable pub built : Builder → ℕ × Bytes
built b = (if b.ok then length b.out else 0, b.out)

unfoldable pub header_of : Option ℕ → Option Bytes → Option Bytes → Option Bytes → ℕ → ℕ × Bytes
unfolding append_header built
header_of (some cap) (some path) (some host) (some session_id) conf =
    built (append_header cap path host session_id conf)
header_of _ _ _ _ conf = (0, [])

unfoldable pub stream_proto_build_request_header : Option ℕ → StreamProtoCfg → ℕ × Bytes
unfolding header_of
stream_proto_build_request_header buf cfg =
    header_of buf cfg.path cfg.host cfg.session_id cfg.wake_conf_milli

unfoldable pub stream_proto_chunk_overhead : ℕ → ℕ
stream_proto_chunk_overhead payload_len =
    if payload_len == 0 then 0 else (hex_digits payload_len + 2 + payload_len + 2) % 2 ^ 32

abbrev pub crlf : Bytes
crlf = 13 ∷ 10 ∷ []

-- The payload is the list, and `payload_len` its length.
unfoldable pub encode_chunk_in : ℕ → Bytes → ℕ × Bytes
encode_chunk_in cap payload =
    if length payload == 0
    then (0, [])
    else if ltb cap (stream_proto_chunk_overhead (length payload))
    then (0, [])
    else let out = write_hex (length payload) ++ (crlf ++ (payload ++ crlf)) in (length out, out)

unfoldable pub stream_proto_encode_chunk : Option ℕ → Bytes → ℕ × Bytes
unfolding encode_chunk_in
stream_proto_encode_chunk none payload = (0, [])
stream_proto_encode_chunk (some cap) payload = encode_chunk_in cap payload

abbrev pub final_chunk : Bytes
final_chunk = codes "0\r\n\r\n"

unfoldable pub stream_proto_encode_final : Option ℕ → ℕ × Bytes
stream_proto_encode_final none = (0, [])
stream_proto_encode_final (some cap) = if ltb cap 5 then (0, []) else (5, final_chunk)
