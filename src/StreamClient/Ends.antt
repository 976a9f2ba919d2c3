-- ===== src/StreamClient/Ends.antt =====
-- How a session of `stream_client_run` ends, and with which event.
use esp32s3_inmp.Base.{
  ℤ, pos, negsuc, ℕ, zero, suc, ◌+◌, ◌^◌, ◌≤◌, ◌<◌, ◌≡◌, ◌≢◌, ◌⊎◌, inl, inr, refl, u32, sub32, Bool,
  true, false, Bytes, [], ◌∷◌, ◌++◌, Option, some, ◌==◌, ltb, length, length-append, take, drop,
  length-take, length-drop, arith, Bool-cases,
}
use esp32s3_inmp.Fsm.{Event, server_closed, session_timeout, failure}
use esp32s3_inmp.App.Cycle.Settles.{StreamAnswer}
use esp32s3_inmp.StreamProto.{
  stream_proto_build_request_header, stream_proto_chunk_overhead, stream_proto_encode_chunk,
  encode_chunk_in, stream_proto_encode_final, write_hex,
}
use esp32s3_inmp.StreamProto.Hex.{length-write_hex}
use esp32s3_inmp.RoundTrip.Hex.{hex_digits_bounds}
use esp32s3_inmp.StreamClient.{
  StreamTransport, PcmSource, StreamClientCfg, Poll, still_open, closed, broken, send_all,
  poll_close, send_encoded, wait_close, after_send, after_last_send, end_of_speech, chunk_loop,
  run_session, stream_client_run,
}

-- A transport never takes none of the bytes that it is handed: it takes some, or reports an error.
abbrev pub Progresses : {U : Type 0} → StreamTransport U → Type 0
Progresses {U} tr = (u : U) (c : ℕ) (p : Bytes) → (tr.send u (c ∷ p)).0 ≢ pos 0

-- A source does not hand out more than it is asked for.
abbrev pub ReadsUpTo : {U : Type 0} → PcmSource U → ℕ → Type 0
ReadsUpTo {U} src n = (u : U) → length (src.read u n).0 ≤ n

-- A session comes back with an event that a `stream` hook may return.
abbrev pub EndsWell : {U : Type 0} → Option (Event × U) → Type 0
EndsWell {U} r = (ev : Event) × (u : U) × (r ≡ some (ev, u)) × StreamAnswer ev

abbrev Returns : {U : Type 0} → Option (Bool × U) → Type 0
Returns {U} r = (sent : Bool) × (u : U) × (r ≡ some (sent, u))

pub ℤ-cases : (z : ℤ) → (z ≡ pos 0) ⊎ ((k : ℕ) × (z ≡ pos (suc k))) ⊎ ((k : ℕ) × (z ≡ negsuc k))
ℤ-cases (pos zero) = inl refl
ℤ-cases (pos (suc k)) = inr (inl (k, refl))
ℤ-cases (negsuc k) = inr (inr (k, refl))

pub Poll-cases : (c : Poll) → (c ≡ still_open) ⊎ (c ≡ closed) ⊎ (c ≡ broken)
Poll-cases still_open = inl refl
Poll-cases closed = inr (inl refl)
Poll-cases broken = inr (inr refl)

module _ {U : Type 0} (tr : StreamTransport U) where
  send_all-Returns :
      (fuel : ℕ) (u : U) (p : Bytes)
      → Progresses tr
      → length p ≤ fuel
      → Returns (send_all tr fuel u p)
  unfolding send_all
  send_all-Returns fuel u [] g le = (true, u, refl)
  send_all-Returns zero u (c ∷ p) g le = absurd (omega arith)
  send_all-Returns (suc fuel) u (c ∷ p) g le = elim (ℤ-cases (tr.send u (c ∷ p)).0) [
    | inl e ↦ absurd (g u c p e)
    | inr (inl (k, e)) ↦
        rw (e, send_all)
          (send_all-Returns fuel (tr.send u (c ∷ p)).1 (drop k p) g
            (omega (arith, length-drop k p)))
    | inr (inr (k, e)) ↦ rw (e, send_all) (false, (tr.send u (c ∷ p)).1, refl)
  ]

  send_encoded-Returns :
      (fuel : ℕ) (m : ℕ × Bytes) (u : U)
      → Progresses tr
      → length m.1 ≤ fuel
      → Returns (send_encoded tr fuel m u)
  unfolding send_encoded
  send_encoded-Returns fuel (len, out) u g le = elim (Bool-cases (len == 0)) [
    | inl e ↦ rw e (false, u, refl)
    | inr e ↦ rw e (send_all-Returns fuel u (take len out) g (omega (arith, length-take len out)))
  ]

  wait_close_answer : (left : ℕ) (u : U) → StreamAnswer (wait_close tr left u).0
  unfolding wait_close
  wait_close_answer zero u = inr (inl refl)
  wait_close_answer (suc left) u = elim (Poll-cases (poll_close tr u).0) [
    | inl e ↦ rw (e, wait_close) (wait_close_answer left (poll_close tr u).1)
    | inr (inl e) ↦ rw (e, wait_close) (inl refl)
    | inr (inr e) ↦ rw (e, wait_close) (inr (inr refl))
  ]

after_send-EndsWell :
    {U : Type 0} (go_on : U → Option (Event × U)) (r : Option (Bool × U))
    → Returns r
    → ((u : U) → EndsWell (go_on u))
    → EndsWell (after_send go_on r)
unfolding after_send
after_send-EndsWell go_on r (true, u, e) h = rw e (h u)
after_send-EndsWell go_on r (false, u, e) h = rw e (failure, u, refl, inr (inr refl))

after_last_send-EndsWell :
    {U : Type 0} (r : Option (Bool × U)) → Returns r → EndsWell (after_last_send r)
unfolding after_last_send
after_last_send-EndsWell r (sent, u, e) = rw e (session_timeout, u, refl, inr (inl refl))

length-encode_final : (buf : ℕ) → length (stream_proto_encode_final (some buf)).1 ≤ 5
unfolding stream_proto_encode_final
length-encode_final buf = ground arith

-- A chunk has at most 20 bytes more than its payload.
length-encode_chunk :
    (buf : ℕ) (p : Bytes)
    → length p < 2 ^ 31
    → length (stream_proto_encode_chunk (some buf) p).1 ≤ length p + 20
unfolding stream_proto_encode_chunk encode_chunk_in
length-encode_chunk buf p small = ground (
  arith,
  length-append (write_hex (length p)) (13 ∷ 10 ∷ (p ++ (13 ∷ 10 ∷ []))),
  length-append p (13 ∷ 10 ∷ []),
  length-write_hex (length p),
  hex_digits_bounds (length p),
)

module _ {U : Type 0} (cfg : StreamClientCfg) (tr : StreamTransport U) (src : PcmSource U)
    (scratch_len : ℕ) where
  end_of_speech-EndsWell :
      (fuel : ℕ) (u : U)
      → Progresses tr
      → 5 ≤ fuel
      → EndsWell (end_of_speech cfg tr src scratch_len fuel u)
  unfolding end_of_speech
  end_of_speech-EndsWell fuel u g le =
      after_send-EndsWell _ _
        (send_encoded-Returns tr fuel (stream_proto_encode_final (some scratch_len)) u g
          (omega (arith, length-encode_final scratch_len)))
        (λ u'. (
          (wait_close tr cfg.max_chunks u').0,
          (wait_close tr cfg.max_chunks u').1,
          refl,
          wait_close_answer tr cfg.max_chunks u',
        ))

  last_send-EndsWell :
      (fuel : ℕ) (u : U)
      → Progresses tr
      → 5 ≤ fuel
      → EndsWell (chunk_loop cfg tr src scratch_len fuel zero u)
  unfolding chunk_loop
  last_send-EndsWell fuel u g le =
      let (flen, out) = stream_proto_encode_final (some scratch_len) in
      elim (Bool-cases (ltb 0 flen)) [
        | inl e ↦ rw e (
            after_last_send-EndsWell _ (
              send_all-Returns tr fuel u (take flen out) g
                (omega (arith, length-take flen out, length-encode_final scratch_len))))
        | inr e ↦ rw e (session_timeout, u, refl, inr (inl refl))
      ]

  chunk_loop-EndsWell :
      (fuel left : ℕ) (u : U)
      → Progresses tr
      → ReadsUpTo src cfg.frame_bytes
      → cfg.frame_bytes < 2 ^ 31
      → cfg.frame_bytes + 20 ≤ fuel
      → EndsWell (chunk_loop cfg tr src scratch_len fuel left u)
  unfolding chunk_loop
  chunk_loop-EndsWell fuel zero u g r small le = last_send-EndsWell fuel u g (omega arith)
  chunk_loop-EndsWell fuel (suc left) u g r small le =
      let u1 = (poll_close tr u).1 in
      let pcm = (src.read u1 cfg.frame_bytes).0 in
      let u2 = (src.read u1 cfg.frame_bytes).1 in
      elim (Poll-cases (poll_close tr u).0) [
        | inl e ↦ elim (Bool-cases (length pcm == 0)) [
          | inl quiet ↦ rw (e, quiet, chunk_loop) (end_of_speech-EndsWell fuel u2 g (omega arith))
          | inr some_ ↦
              rw (e, some_, chunk_loop)
                (after_send-EndsWell _ _
                  (send_encoded-Returns tr fuel
                    (stream_proto_encode_chunk (some (sub32 scratch_len cfg.frame_bytes)) pcm) u2 g
                    (omega (
                      arith,
                      r u1,
                      length-encode_chunk (sub32 scratch_len cfg.frame_bytes) pcm
                          (omega (arith, r u1)),
                    )))
                  (λ u'. chunk_loop-EndsWell fuel left u' g r small le))
        ]
        | inr (inl e) ↦ rw (e, chunk_loop) (server_closed, u1, refl, inl refl)
        | inr (inr e) ↦ rw (e, chunk_loop) (failure, u1, refl, inr (inr refl))
      ]

  -- A session returns, with fuel for the request header and for a frame with 20 bytes of framing, and
  -- with one of the three events that the application expects of its `stream` hook: the server closed,
  -- the session timed out, or an error. The transport must make progress: a send that takes no byte and
  -- reports no error keeps the client in its loop. The source must not hand out more than it is asked for.
  pub stream_client_run-EndsWell :
      (fuel : ℕ) (u : U)
      → Progresses tr
      → ReadsUpTo src cfg.frame_bytes
      → cfg.frame_bytes < 2 ^ 31
      → cfg.frame_bytes + 20 ≤ fuel
      → length (stream_proto_build_request_header (some scratch_len) cfg.proto).1 ≤ fuel
      → EndsWell (stream_client_run fuel (some cfg) (some tr) (some src) (some scratch_len) u)
  unfolding stream_client_run run_session
  stream_client_run-EndsWell fuel u g r small le header = elim (Bool-cases (cfg.frame_bytes == 0)) [
    | inl e ↦ rw e (failure, u, refl, inr (inr refl))
    | inr e ↦
        elim (Bool-cases
          (ltb scratch_len (u32 (cfg.frame_bytes + stream_proto_chunk_overhead cfg.frame_bytes)))) [
            | inl f ↦ rw (e, f) (failure, u, refl, inr (inr refl))
            | inr f ↦
                rw (e, f)
                  (after_send-EndsWell _ _
                    (send_encoded-Returns tr fuel
                      (stream_proto_build_request_header (some scratch_len) cfg.proto) u g header)
                    (λ u'. chunk_loop-EndsWell fuel cfg.max_chunks u' g r small le))
          ]
  ]
