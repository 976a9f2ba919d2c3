-- ===== src/StreamClient.antt =====
-- firmware/core/src/net/stream_client.c: one streaming session of the client.
-- The transport and the source of samples are callbacks, parameters of the model; `U` is the state behind
-- their `user` pointers. A `long` is a signed integer. What `recv` writes is not looked at, so only its result
-- is modelled. The samples are read into the last `frame_bytes` of the scratch buffer and encoded into
-- what is in front of them, so the two do not overlap. `size_t` has the 32 bits of the ESP32-S3.
pub mod Ends
pub mod Room
pub mod Sends
use esp32s3_inmp.Base.{
  ℤ, pos, negsuc, ℕ, zero, suc, ◌+◌, u32, sub32, Bool, true, false, Bytes, [], ◌∷◌, Option, none,
  some, ◌==◌, ltb, if◌then◌else◌, length, take, drop,
}
use esp32s3_inmp.Fsm.{Event, server_closed, session_timeout, failure}
use esp32s3_inmp.StreamProto.{
  StreamProtoCfg, stream_proto_build_request_header, stream_proto_chunk_overhead,
  stream_proto_encode_chunk, stream_proto_encode_final,
}

pub record StreamTransport (U : Type 0) : Type 0 where
  pub send : U → Bytes → ℤ × U
  pub recv : U → ℕ → ℤ × U

-- `read` returns the bytes that it has written, at most as many as it is asked for.
pub record PcmSource (U : Type 0) : Type 0 where
  pub read : U → ℕ → Bytes × U

pub record StreamClientCfg : Type 0 where
  pub proto : StreamProtoCfg
  pub frame_bytes : ℕ
  pub max_chunks : ℕ

-- What `poll_close` returns: 0, 1 and -1.
pub data Poll : Type 0 where
  still_open closed broken : Poll

-- The result of `recv`; -2 is STREAM_WOULDBLOCK.
unfoldable pub poll_of : ℤ → Poll
poll_of (pos zero) = closed
poll_of (pos (suc n)) = still_open
poll_of (negsuc (suc zero)) = still_open
poll_of (negsuc _) = broken

module _ {U : Type 0} (tr : StreamTransport U) where
  -- The loop of `send_all` on the bytes that are left; `none` means that the fuel ran out.
  unfoldable pub send_all : ℕ → U → Bytes → Option (Bool × U)
  send_all fuel u [] = some (true, u)
  send_all zero u (c ∷ p) = none
  send_all (suc fuel) u (c ∷ p) =
      let (n, u') = tr.send u (c ∷ p) in
      elim n [ negsuc _ ↦ some (false, u') | pos k ↦ send_all fuel u' (drop k (c ∷ p)) ]

  unfoldable pub poll_close : U → Poll × U
  unfolding poll_of
  poll_close u = let (n, u') = tr.recv u 64 in (poll_of n, u')

  -- `len == 0 || !send_all(tr, scratch, len)`, negated, on what an encoder has returned.
  unfoldable pub send_encoded : ℕ → ℕ × Bytes → U → Option (Bool × U)
  unfolding send_all
  send_encoded fuel (len, out) u =
      if len == 0 then some (false, u) else send_all fuel u (take len out)

  -- The loop that waits for the server, behind the end of speech.
  unfoldable pub wait_close : ℕ → U → Event × U
  unfolding poll_close
  wait_close zero u = (session_timeout, u)
  wait_close (suc left) u =
      let (c, u') = poll_close u in
      elim c [
        | broken ↦ (failure, u')
        | closed ↦ (server_closed, u')
        | still_open ↦ wait_close left u'
      ]

-- A failed send returns FSM_EV_ERROR, and `go_on` is what follows a send that succeeds.
unfoldable pub after_send :
    {U : Type 0} → (U → Option (Event × U)) → Option (Bool × U) → Option (Event × U)
after_send go_on none = none
after_send go_on (some (false, u)) = some (failure, u)
after_send go_on (some (true, u)) = go_on u

-- The result of the last send is ignored.
unfoldable pub after_last_send : {U : Type 0} → Option (Bool × U) → Option (Event × U)
after_last_send none = none
after_last_send (some (sent, u)) = some (session_timeout, u)

module _ {U : Type 0} (cfg : StreamClientCfg) (tr : StreamTransport U) (src : PcmSource U)
    (scratch_len : ℕ) where
  unfoldable pub end_of_speech : ℕ → U → Option (Event × U)
  unfolding send_encoded wait_close after_send
  end_of_speech fuel u =
      after_send (λ u'. some (wait_close tr cfg.max_chunks u'))
        (send_encoded tr fuel (stream_proto_encode_final (some scratch_len)) u)

  -- The loop over chunks, on those that are left, and what follows it.
  unfoldable pub chunk_loop : ℕ → ℕ → U → Option (Event × U)
  unfolding send_all poll_close send_encoded end_of_speech after_send after_last_send
  chunk_loop fuel zero u =
      let (flen, out) = stream_proto_encode_final (some scratch_len) in
      if ltb 0 flen
      then after_last_send (send_all tr fuel u (take flen out))
      else some (session_timeout, u)
  chunk_loop fuel (suc left) u =
      let (c, u1) = poll_close tr u in
      elim c [
        | broken ↦ some (failure, u1)
        | closed ↦ some (server_closed, u1)
        | still_open ↦
            let (pcm, u2) = src.read u1 cfg.frame_bytes in
            elim (length pcm == 0) [
              | true ↦ end_of_speech fuel u2
              | false ↦ after_send (chunk_loop fuel left) (
                  send_encoded tr fuel
                    (stream_proto_encode_chunk (some (sub32 scratch_len cfg.frame_bytes)) pcm) u2)
            ]
      ]

  -- What follows the tests for NULL.
  unfoldable pub run_session : ℕ → U → Option (Event × U)
  run_session fuel u =
      if cfg.frame_bytes == 0
      then some (failure, u)
      else if ltb scratch_len (u32 (cfg.frame_bytes + stream_proto_chunk_overhead cfg.frame_bytes))
      then some (failure, u)
      else after_send (chunk_loop fuel cfg.max_chunks)
          (send_encoded tr fuel (stream_proto_build_request_header (some scratch_len) cfg.proto) u)

module _ {U : Type 0} where
  -- The scratch buffer is its length, `none` for NULL.
  unfoldable pub stream_client_run :
      ℕ
      → Option StreamClientCfg
      → Option (StreamTransport U)
      → Option (PcmSource U)
      → Option ℕ
      → U
      → Option (Event × U)
  unfolding run_session
  stream_client_run fuel (some cfg) (some tr) (some src) (some scratch_len) u =
      run_session cfg tr src scratch_len fuel u
  stream_client_run fuel _ _ _ _ u = some (failure, u)
