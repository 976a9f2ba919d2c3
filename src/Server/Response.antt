-- ===== src/Server/Response.antt =====
-- The response of `send_cut_response` and the buffers that it is formatted into.
use esp32s3_inmp.Base.{ℕ, ◌≤◌, ◌<◌, ◌≡◌, ◌++◌, some, codes, arith, length, length-append, lt→ltb}
use esp32s3_inmp.StreamProto.Header.{length-decimal}
use esp32s3_inmp.Debounce.{CutReason, no_cut, debounced, max_session, silence, cut_reason_str}
use esp32s3_inmp.Session.{Session, session_cut_reason}
use esp32s3_inmp.Server.{cut_body, cut_header, send_cut_response, body_max, hdr_max, or_empty}

length-cut_reason_str : (r : CutReason) → length (codes (cut_reason_str r)) ≤ 11
unfolding cut_reason_str
length-cut_reason_str no_cut = omega arith
length-cut_reason_str debounced = omega arith
length-cut_reason_str max_session = omega arith
length-cut_reason_str silence = omega arith

length-cut_body :
    {C : Type 0} (s : Session C)
    → length s.last_transcript ≤ 127
    → length (or_empty s.last_intent_name) ≤ 57
    → length (cut_body s) < body_max
unfolding cut_body
length-cut_body s t n = omega (
  arith,
  length-append {0},
  length-decimal s.commands,
  length-cut_reason_str (session_cut_reason s),
)

length-cut_header : (blen : ℕ) → length (cut_header blen) < hdr_max
unfolding cut_header
length-cut_header blen = omega (arith, length-append {0}, length-decimal blen)

-- The response to a cut fits its buffers, for an intent whose name has at most 57 bytes: the two writes send
-- the whole header, with the length of the body, and the whole body.
pub send_cut_response_fits :
    {C : Type 0} (s : Session C)
    → length s.last_transcript ≤ 127
    → length (or_empty s.last_intent_name) ≤ 57
    → send_cut_response s ≡ some (cut_header (length (cut_body s)) ++ cut_body s)
unfolding send_cut_response
send_cut_response_fits s t n = rw (
  lt→ltb (length (cut_body s)) body_max (length-cut_body s t n),
  lt→ltb (length (cut_header (length (cut_body s)))) hdr_max
      (length-cut_header (length (cut_body s))),
)
