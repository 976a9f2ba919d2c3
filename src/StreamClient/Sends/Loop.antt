-- ===== src/StreamClient/Sends/Loop.antt =====
-- What the loop over chunks and a whole session put on the wire.
use esp32s3_inmp.Base.{
  ℕ, zero, suc, ◌+◌, ◌^◌, ◌≤◌, ◌<◌, ◌≡◌, refl, sym, ◌∙◌, u32, sub32, Bool, true, false, Bytes, [],
  ◌++◌, Option, none, some, ◌==◌, ltb, length, length-take, take, drop, take_all, append-nil, arith,
  Bool-cases, inl, inr, ◌⊎◌, ◌≢◌, subst,
}
use esp32s3_inmp.Fsm.{Event, session_timeout, server_closed, failure}
use esp32s3_inmp.StreamProto.{
  stream_proto_build_request_header, stream_proto_chunk_overhead, stream_proto_encode_chunk,
  final_chunk,
}
use esp32s3_inmp.RoundTrip.Hex.{hex_digits_bounds}
use esp32s3_inmp.RoundTrip.Body.{stream, encode_final_lem}
use esp32s3_inmp.StreamClient.{
  StreamTransport, PcmSource, StreamClientCfg, poll_close, send_encoded, wait_close,
  after_last_send, end_of_speech, chunk_loop, run_session, stream_client_run,
}
use esp32s3_inmp.StreamClient.Ends.{Poll-cases, Progresses, ReadsUpTo, stream_client_run-EndsWell}
use esp32s3_inmp.StreamClient.Room.{chunk_has_room}
use esp32s3_inmp.StreamClient.Sends.{
  Carries, frames, SentOf, Streamed, Streamed-mono, Streamed-from, stopped, after_send-Streamed,
  send_all-SentOf, send_encoded-SentOf,
}

-- The test of the scratch buffer's size leaves room for the end of the body, too.
pub room_for_final :
    (frame scratch_len : ℕ)
    → 0 < frame
    → frame < 2 ^ 30
    → scratch_len < 2 ^ 32
    → ltb scratch_len (u32 (frame + stream_proto_chunk_overhead frame)) ≡ false
    → (5 ≤ sub32 scratch_len frame) × (5 ≤ scratch_len)
unfolding stream_proto_chunk_overhead
room_for_final frame scratch_len some_ small buf room = ground (arith, hex_digits_bounds frame)

module _ {U : Type 0} (cfg : StreamClientCfg) (tr : StreamTransport U) (src : PcmSource U)
    (scratch_len : ℕ) (wire : U → Bytes) (Left : U → Bytes → Type 0)
    (c : Carries tr src wire Left cfg.frame_bytes) where
  poll_close-wire : (u : U) → wire (poll_close tr u).1 ≡ wire u
  unfolding poll_close
  poll_close-wire u = c.recvs u 64

  poll_close-Left : (u : U) (xs : Bytes) → Left u xs → Left (poll_close tr u).1 xs
  unfolding poll_close
  poll_close-Left u = c.recvs_only u 64

  wait_close-wire : (k : ℕ) (u : U) → wire (wait_close tr k u).1 ≡ wire u
  unfolding wait_close
  wait_close-wire zero u = refl
  wait_close-wire (suc k) u = elim (Poll-cases (poll_close tr u).0) [
    | inl e ↦ rw (e, wait_close) (wait_close-wire k (poll_close tr u).1 ∙ poll_close-wire u)
    | inr (inl e) ↦ rw (e, wait_close) (poll_close-wire u)
    | inr (inr e) ↦ rw (e, wait_close) (poll_close-wire u)
  ]

  end_of_speech-Streamed :
      (A : Type 0) (fuel : ℕ) (u : U)
      → 5 ≤ scratch_len
      → Streamed wire Left A final_chunk u (end_of_speech cfg tr src scratch_len fuel u)
  unfolding end_of_speech
  end_of_speech-Streamed A fuel u five = rw (encode_final_lem scratch_len five) (
      after_send-Streamed wire Left A final_chunk [] u _ _
        (send_encoded-SentOf cfg tr src scratch_len wire Left c fuel (5, final_chunk) u)
        (λ v l. (
          0,
          omega arith,
          wait_close-wire cfg.max_chunks v ∙ sym (append-nil (wire v)),
          λ t a. refl,
        )))

  last_send-Streamed :
      (A : Type 0) (u : U) (r : Option (Bool × U))
      → (A → ⊥)
      → SentOf wire Left final_chunk u r
      → Streamed wire Left A final_chunk u (after_last_send r)
  unfolding after_last_send
  last_send-Streamed A u none never s = s
  last_send-Streamed A u (some (true, v)) never (e, l) = (5, omega arith, e, λ t a. refl)
  last_send-Streamed A u (some (false, v)) never (n, le, e) = (n, le, e, λ t a. absurd (never a))

  chunk-SentOf :
      (fuel : ℕ) (p : Bytes) (u : U)
      → cfg.frame_bytes < 2 ^ 30
      → scratch_len < 2 ^ 32
      → ltb scratch_len (u32 (cfg.frame_bytes + stream_proto_chunk_overhead cfg.frame_bytes))
        ≡ false
      → 0 < length p
      → length p ≤ cfg.frame_bytes
      → let m = stream_proto_encode_chunk (some (sub32 scratch_len cfg.frame_bytes)) p in
        SentOf wire Left m.1 u (send_encoded tr fuel m u)
  chunk-SentOf fuel p u small buf room some_ le =
      let m = stream_proto_encode_chunk (some (sub32 scratch_len cfg.frame_bytes)) p in
      let (a, e, r) = chunk_has_room cfg.frame_bytes scratch_len p small buf room some_ le in
      subst (λ q. SentOf wire Left q u (send_encoded tr fuel m u))
        (take_all m.0 m.1 (omega (arith, e)))
        (send_encoded-SentOf cfg tr src scratch_len wire Left c fuel m u)

  chunk_loop-Streamed :
      (fuel k : ℕ) (u : U) (xs : Bytes)
      → Left u xs
      → 0 < cfg.frame_bytes
      → cfg.frame_bytes < 2 ^ 30
      → scratch_len < 2 ^ 32
      → ltb scratch_len (u32 (cfg.frame_bytes + stream_proto_chunk_overhead cfg.frame_bytes))
        ≡ false
      → let sent = frames k cfg.frame_bytes xs in
        Streamed wire Left
          (length sent < k)
          (stream (sub32 scratch_len cfg.frame_bytes) sent)
          u
          (chunk_loop cfg tr src scratch_len fuel k u)
  unfolding chunk_loop frames stream
  chunk_loop-Streamed fuel zero u xs l some_ small buf room =
      let (five, five') = room_for_final cfg.frame_bytes scratch_len some_ small buf room in
      rw
        (
          encode_final_lem scratch_len five',
          stream,
          encode_final_lem (sub32 scratch_len cfg.frame_bytes) five,
        )
        (last_send-Streamed (0 < 0) u _ (λ a. omega arith)
          (send_all-SentOf cfg tr src scratch_len wire Left c fuel u final_chunk))
  chunk_loop-Streamed fuel (suc k) u xs l some_ small buf room =
      let (five, five') = room_for_final cfg.frame_bytes scratch_len some_ small buf room in
      let u1 = (poll_close tr u).1 in
      let u2 = (src.read u1 cfg.frame_bytes).1 in
      let w1 = poll_close-wire u in
      let l1 = poll_close-Left u xs l in
      let pcm : (src.read u1 cfg.frame_bytes).0 ≡ take cfg.frame_bytes xs = c.reads u1 xs l1 in
      let l2 : Left u2 (drop cfg.frame_bytes xs) = c.reads_on u1 xs l1 in
      let w2 : wire u2 ≡ wire u = c.reads_only u1 ∙ w1 in
      elim (Poll-cases (poll_close tr u).0) [
        | inl e ↦ elim (Bool-cases (length (take cfg.frame_bytes xs) == 0)) [
          | inl quiet ↦
              rw
                (
                  e,
                  pcm,
                  quiet,
                  chunk_loop,
                  frames,
                  stream,
                  encode_final_lem (sub32 scratch_len cfg.frame_bytes) five,
                )
                (Streamed-from wire Left _ final_chunk u u2 _ w2
                  (end_of_speech-Streamed _ fuel u2 five'))
          | inr loud ↦
              rw (e, pcm, loud, pcm, chunk_loop, frames, stream)
                (Streamed-from wire Left _ _ u u2 _ w2 (
                  after_send-Streamed wire Left _ _ _ u2 (chunk_loop cfg tr src scratch_len fuel k)
                    _
                    (chunk-SentOf fuel (take cfg.frame_bytes xs) u2 small buf room
                      (ground (arith, loud)) (omega (arith, length-take cfg.frame_bytes xs)))
                    (λ v l'.
                      Streamed-mono wire Left _ _ _ v _ (λ h. omega arith)
                        (chunk_loop-Streamed fuel k v (drop cfg.frame_bytes xs) (l' _ l2) some_
                          small buf room))))
        ]
        | inr (inl e) ↦ rw (e, chunk_loop) (stopped wire Left _ _ u u1 server_closed w1 (λ t. cc))
        | inr (inr e) ↦ rw (e, chunk_loop) (stopped wire Left _ _ u u1 failure w1 (λ t. cc))
      ]

  -- What a session has to send: the request header as it was built, then the samples in frames, each as a
  -- chunk, and the end of the body.
  abbrev pub to_send : Bytes → Bytes
  to_send xs =
      let (len, header) = stream_proto_build_request_header (some scratch_len) cfg.proto in
      take len header
      ++ stream (sub32 scratch_len cfg.frame_bytes) (frames cfg.max_chunks cfg.frame_bytes xs)

  -- The same for any fuel, where the session may be out of it before it returns.
  pub stream_client_run-Streamed :
      (fuel : ℕ) (u : U) (xs : Bytes)
      → Left u xs
      → cfg.frame_bytes < 2 ^ 30
      → scratch_len < 2 ^ 32
      → Streamed wire Left
          (length (frames cfg.max_chunks cfg.frame_bytes xs) < cfg.max_chunks)
          (to_send xs)
          u
          (stream_client_run fuel (some cfg) (some tr) (some src) (some scratch_len) u)
  unfolding stream_client_run run_session
  stream_client_run-Streamed fuel u xs has small buf = elim (Bool-cases (cfg.frame_bytes == 0)) [
    | inl e ↦ rw e (stopped wire Left _ _ u u failure refl (λ t. cc))
    | inr e ↦
        elim (Bool-cases
          (ltb scratch_len (u32 (cfg.frame_bytes + stream_proto_chunk_overhead cfg.frame_bytes)))) [
            | inl f ↦ rw (e, f) (stopped wire Left _ _ u u failure refl (λ t. cc))
            | inr f ↦
                rw (e, f)
                  (after_send-Streamed wire Left _ _ _ u
                    (chunk_loop cfg tr src scratch_len fuel cfg.max_chunks) _
                    (send_encoded-SentOf cfg tr src scratch_len wire Left c fuel
                      (stream_proto_build_request_header (some scratch_len) cfg.proto) u)
                    (λ v l.
                      chunk_loop-Streamed fuel cfg.max_chunks v xs (l xs has) (ground (arith, e))
                        small buf f))
          ]
  ]

  -- A session returns, and whatever the network does to it, and however it ends, what it has put on the wire
  -- is a prefix of one stream: the request header, then the source's samples in order, each once, in frames
  -- of `frame_bytes` and at most `max_chunks` of them, each framed as a chunk, then the end of the body.
  -- When the samples have fewer frames than `max_chunks` and the session runs to its end, all of the stream
  -- is there. The transport must make progress and put on the wire what it says it sent, and the source
  -- hand out its samples in order. Frames are below 2^30 bytes and buffers below 2^32; the fuel is that of
  -- the header, and of a frame with 20 bytes of framing.
  pub stream_client_run_sends :
      (fuel : ℕ) (u : U) (xs : Bytes)
      → Left u xs
      → Progresses tr
      → ReadsUpTo src cfg.frame_bytes
      → cfg.frame_bytes < 2 ^ 30
      → scratch_len < 2 ^ 32
      → cfg.frame_bytes + 20 ≤ fuel
      → length (stream_proto_build_request_header (some scratch_len) cfg.proto).1 ≤ fuel
      → let q = to_send xs in
        (ev : Event) × (u' : U) × (n : ℕ) × (stream_client_run fuel
            (some cfg)
            (some tr)
            (some src)
            (some scratch_len)
            u
          ≡ some (ev, u'))
        × (n ≤ length q)
        × (wire u' ≡ wire u ++ take n q)
        × ((n ≡ length q)
            ⊎ (ev ≢ session_timeout)
            ⊎ (cfg.max_chunks ≤ length (frames cfg.max_chunks cfg.frame_bytes xs)))
  stream_client_run_sends fuel u xs has g r small buf le header =
      let (ev, u', e, answer) =
        stream_client_run-EndsWell cfg tr src scratch_len fuel u g r (omega arith) le header in
      let (n, some_, w, all) =
        subst
          (Streamed wire Left (length (frames cfg.max_chunks cfg.frame_bytes xs) < cfg.max_chunks)
            (to_send xs) u)
          e (stream_client_run-Streamed fuel u xs has small buf) in
      let sent = length (frames cfg.max_chunks cfg.frame_bytes xs) in
      (
        ev,
        u',
        n,
        e,
        some_,
        w,
        elim answer [
          | inl closed_ ↦ inr (inl (λ t. cc))
          | inr (inr failed) ↦ inr (inl (λ t. cc))
          | inr (inl timed) ↦ elim (Bool-cases (ltb sent cfg.max_chunks)) [
            | inl few ↦ inl (all timed (ground (arith, few)))
            | inr many ↦ inr (inr (ground (arith, many)))
          ]
        ],
      )
