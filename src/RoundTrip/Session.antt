-- ===== src/RoundTrip/Session.antt =====
-- A whole session, from the samples of the client to the payloads of the server.
use esp32s3_inmp.Base.{
  ℕ, zero, suc, ◌+◌, ◌^◌, ◌≤◌, ◌<◌, ◌≡◌, ◌≢◌, ◌⊎◌, refl, sym, ap, ◌∙◌, u32, sub32, true, false,
  List, Bytes, [], ◌∷◌, ◌++◌, Option, some, ◌==◌, ltb, length, length-take, take, drop, take_all,
  take-append-drop, drop-append_length, append_assoc, append-nil, arith, Bool-cases, inl, inr,
  subst,
}
use esp32s3_inmp.Fsm.{Event, session_timeout}
use esp32s3_inmp.StreamProto.{
  stream_proto_build_request_header, stream_proto_chunk_overhead, hex_digits,
}
use esp32s3_inmp.StreamClient.{StreamTransport, PcmSource, StreamClientCfg, stream_client_run}
use esp32s3_inmp.StreamClient.Room.{hex_digits_loop_mono}
use esp32s3_inmp.StreamClient.Sends.{Carries, frames, Streamed}
use esp32s3_inmp.StreamClient.Sends.Loop.{stream_client_run-Streamed, room_for_final}
use esp32s3_inmp.HttpIngest.{HttpIngest, http_ingest_init, parse_request_line, done}
use esp32s3_inmp.HttpIngest.Headers.{IsLine, AllLines, text_of, header_read}
use esp32s3_inmp.HttpIngest.Feed.{Ready, pushes, pushes-append}
use esp32s3_inmp.HttpIngest.Feed.Loop.{http_ingest_feed_lem}
use esp32s3_inmp.HttpIngest.Feed.Keeps.{http_ingest_feed-FeedKeeps}
use esp32s3_inmp.HttpIngest.Feed.Cuts.{joined, feed_all, feed_all_lem, pushes-Ready}
use esp32s3_inmp.RoundTrip.Hex.{hex_digits_bounds}
use esp32s3_inmp.RoundTrip.Chunk.{AtChunk}
use esp32s3_inmp.RoundTrip.Body.{stream, AllFit, keep_spans, keep_spans-SplitsFor, pushes-stream}

-- Where a frame has room behind the test of the scratch buffer, every shorter payload has.
overhead_mono :
    (cap frame n : ℕ)
    → 0 < n
    → n ≤ frame
    → frame < 2 ^ 30
    → stream_proto_chunk_overhead frame ≤ cap
    → stream_proto_chunk_overhead n ≤ cap
unfolding stream_proto_chunk_overhead hex_digits
overhead_mono cap frame n some_ le small room =
    ground (arith, hex_digits_loop_mono 16 n frame le, hex_digits_bounds frame, hex_digits_bounds n)

overhead_fits :
    (frame scratch_len : ℕ)
    → frame < 2 ^ 30
    → scratch_len < 2 ^ 32
    → ltb scratch_len (u32 (frame + stream_proto_chunk_overhead frame)) ≡ false
    → stream_proto_chunk_overhead frame ≤ sub32 scratch_len frame
unfolding stream_proto_chunk_overhead
overhead_fits frame scratch_len small buf room = ground (arith, hex_digits_bounds frame)

frames-AllFit :
    (most n cap : ℕ) (xs : Bytes)
    → n < 2 ^ 30
    → stream_proto_chunk_overhead n ≤ cap
    → AllFit cap (frames most n xs)
unfolding frames
frames-AllFit zero n cap xs small room = _
frames-AllFit (suc most) n cap xs small room = elim (Bool-cases (length (take n xs) == 0)) [
  | inl e ↦ rw (e, frames) _
  | inr e ↦
      rw (e, frames)
        (
          record {
            some_payload = ground (arith, e);
            small = omega (arith, length-take n xs);
            room =
                overhead_mono cap n (length (take n xs)) (ground (arith, e))
                  (omega (arith, length-take n xs)) small room;
          },
          frames-AllFit most n cap (drop n xs) small room,
        )
]

empty : (xs : Bytes) → length xs ≡ 0 → xs ≡ []
empty [] e = refl
empty (x ∷ xs) e = absurd (omega (arith, e))

-- The frames are the samples, when there are fewer of them than are allowed.
joined-frames :
    (most n : ℕ) (xs : Bytes)
    → 0 < n
    → length (frames most n xs) < most
    → joined (frames most n xs) ≡ xs
unfolding frames
joined-frames zero n xs some_ = λ h. absurd (omega arith)
joined-frames (suc most) n xs some_ = elim (Bool-cases (length (take n xs) == 0)) [
  | inl e ↦
      let none_taken : length (take n xs) ≡ 0 = ground (arith, e) in
      rw (e, frames) (λ h. sym (empty xs (omega (arith, length-take n xs, none_taken))))
  | inr e ↦
      rw (e, frames)
        (λ h.
          ap (λ t. take n xs ++ t) (joined-frames most n (drop n xs) some_ (omega (arith, h)))
          ∙ take-append-drop n xs)
]

-- The frames are in any case the front of the samples.
frames_prefix :
    (most n : ℕ) (xs : Bytes) → (rest : Bytes) × (xs ≡ joined (frames most n xs) ++ rest)
unfolding frames
frames_prefix zero n xs = (xs, refl)
frames_prefix (suc most) n xs = elim (Bool-cases (length (take n xs) == 0)) [
  | inl e ↦ rw (e, frames) (xs, refl)
  | inr e ↦
      let (rest, eq) = frames_prefix most n (drop n xs) in
      rw (e, frames)
        (
          rest,
          sym (take-append-drop n xs)
              ∙ (ap (λ t. take n xs ++ t) eq
                  ∙ sym (append_assoc (take n xs) (joined (frames most n (drop n xs))) rest)),
        )
]

same_parser :
    (x y : Option Bytes × HttpIngest Bytes)
    → ◌≡◌ {A = Option (Option Bytes × HttpIngest Bytes)} (some x) (some y)
    → x.1 ≡ y.1
same_parser x y e = let same : x ≡ y = cc in ap (λ z. z.1) same

-- What the callback has been handed only grows.
grows :
    (ing : HttpIngest Bytes) (buf : Bytes)
    → Ready ing
    → (more : Bytes) × ((pushes keep_spans ing buf).user ≡ ing.user ++ more)
grows ing buf r =
    let (left, ing', e, (more, p), r') =
      http_ingest_feed-FeedKeeps keep_spans refl (λ u. (more : Bytes) × (u ≡ ing.user ++ more))
        (length buf) longer (length buf) ing buf r ([], sym (append-nil ing.user)) (omega arith)
        (omega arith) in
    let same : pushes keep_spans ing buf ≡ ing' = same_parser _ _ (
      sym
        (http_ingest_feed_lem keep_spans (length buf) ing buf keep_spans-SplitsFor r (omega arith))
      ∙ e) in
    (more, ap (λ i. i.user) same ∙ p)
  where
    longer :
        (u span : Bytes)
        → length span ≤ length buf
        → (more : Bytes) × (u ≡ ing.user ++ more)
        → (more : Bytes) × (u ++ span ≡ ing.user ++ more)
    longer u span le (more, e) =
        (more ++ span, ap (λ x. x ++ span) e ∙ append_assoc ing.user more span)

-- A parser that has read the headers, and has handed nothing to its callback.
pub record AtBody (ing : HttpIngest Bytes) : Type 0 where
  pub at_chunk : AtChunk ing
  pub no_payload : ing.user ≡ []

-- A new parser.
abbrev pub new_parser : HttpIngest Bytes
new_parser = http_ingest_init []

new_parser-Ready : Ready new_parser
unfolding http_ingest_init
new_parser-Ready s = cc

module _ (cap : ℕ) (ps : List Bytes) (header : Bytes) (five : 5 ≤ cap) (fit : AllFit cap ps)
    (b : AtBody (pushes keep_spans new_parser header)) where
  abbrev whole_stream : Bytes
  whole_stream = header ++ stream cap ps

  whole_read :
      pushes keep_spans new_parser whole_stream ≡ record (pushes keep_spans new_parser header) {
        user = joined ps;
        complete = true;
        state = done;
      }
  whole_read =
      let ready = pushes keep_spans new_parser header in
      pushes-append keep_spans new_parser header (stream cap ps)
      ∙ (pushes-stream ps cap ready five fit b.at_chunk
          ∙ ap {A = Bytes}
              (λ u. record ready { user = u ++ joined ps; complete = true; state = done })
              b.no_payload)

  part_read :
      (n : ℕ) (xs rest : Bytes)
      → xs ≡ joined ps ++ rest
      → (rest : Bytes) × (xs ≡ (pushes keep_spans new_parser (take n whole_stream)).user ++ rest)
  part_read n xs rest e =
      let q = whole_stream in
      let part = pushes keep_spans new_parser (take n q) in
      let (more, g) =
        grows part (drop n q) (pushes-Ready keep_spans new_parser (take n q) new_parser-Ready) in
      (
        more ++ rest,
        e
            ∙ ap (λ x. x ++ rest)
                (ap (λ i. i.user)
                    (sym whole_read
                      ∙ (ap (pushes keep_spans new_parser) (sym (take-append-drop n q))
                          ∙ pushes-append keep_spans new_parser (take n q) (drop n q)))
                  ∙ g)
            ∙ append_assoc part.user more rest,
      )

is_timeout : (ev : Event) → (ev ≡ session_timeout) ⊎ (ev ≢ session_timeout)
is_timeout session_timeout = inl refl
is_timeout _ = inr (λ e. cc)

at_body :
    (header first : Bytes) (lines : List Bytes)
    → header ≡ text_of (first ∷ lines)
    → IsLine first
    → AllLines lines
    → (parse_request_line (record new_parser { line = first })).0 ≡ true
    → AtBody (pushes keep_spans new_parser header)
at_body header first lines e f ls r =
    let b = header_read keep_spans refl first lines [] f ls r in
    subst (λ x. AtBody (pushes keep_spans new_parser x)) (sym e)
      (record {
        at_chunk = record { at_size = b.is_at; no_line = b.no_line; nothing_left = b.nothing_left };
        no_payload = b.same_user;
      })

module _ {U : Type 0} (cfg : StreamClientCfg) (tr : StreamTransport U) (src : PcmSource U)
    (scratch_len : ℕ) (wire : U → Bytes) (Left : U → Bytes → Type 0)
    (c : Carries tr src wire Left cfg.frame_bytes) where
  -- The request header as it was built.
  abbrev pub header : Bytes
  header =
      let (len, out) = stream_proto_build_request_header (some scratch_len) cfg.proto in
      take len out

  -- From the client's source to the server's parser, whatever the network does and however the session
  -- ends: the parser, fed with the bytes that a session which has returned has put on the wire, in any
  -- pieces, has handed its callback a front of the samples, in order and without a gap. Where the
  -- session ended as timed out, not cut by the server or an error, and the samples have fewer frames
  -- than `max_chunks`, it is all of the samples, and the body is complete. The request header must be
  -- made of lines that the parser accepts: none empty, with a NUL or a line feed, or of more than 510
  -- bytes, and the first one a request line. The transport and the source must carry the samples
  -- (`Carries`), and the scratch buffer must pass the test of the session. A frame is not empty and
  -- below 2^30 bytes, buffers are below 2^32, and the fuel of the parser is the number of bytes. How a
  -- payload is cut into spans is left open.
  pub session_received :
      (fuel : ℕ) (u u' : U) (ev : Event) (xs : Bytes) (bufs : List Bytes) (fuel' : ℕ)
      (first : Bytes) (lines : List Bytes)
      → Left u xs
      → 0 < cfg.frame_bytes
      → cfg.frame_bytes < 2 ^ 30
      → scratch_len < 2 ^ 32
      → ltb scratch_len (u32 (cfg.frame_bytes + stream_proto_chunk_overhead cfg.frame_bytes))
        ≡ false
      → stream_client_run fuel (some cfg) (some tr) (some src) (some scratch_len) u ≡ some (ev, u')
      → wire u' ≡ wire u ++ joined bufs
      → length (joined bufs) ≤ fuel'
      → header ≡ text_of (first ∷ lines)
      → IsLine first
      → AllLines lines
      → (parse_request_line (record new_parser { line = first })).0 ≡ true
      → (ing : HttpIngest Bytes) × (rest : Bytes) × (feed_all keep_spans fuel' new_parser bufs
          ≡ some ing)
        × (xs ≡ ing.user ++ rest)
        × (((ing.user ≡ xs) × (ing.complete ≡ true) × (ing.state ≡ done))
            ⊎ (ev ≢ session_timeout)
            ⊎ (cfg.max_chunks ≤ length (frames cfg.max_chunks cfg.frame_bytes xs)))
  session_received fuel u u' ev xs bufs fuel' first lines has some_ small buf room e j h he fl al
        re =
      let b = at_body header first lines he fl al re in
      let sent = frames cfg.max_chunks cfg.frame_bytes xs in
      let cap_ = sub32 scratch_len cfg.frame_bytes in
      let q = header ++ stream cap_ sent in
      let (five, five') = room_for_final cfg.frame_bytes scratch_len some_ small buf room in
      let fit =
        frames-AllFit cfg.max_chunks cfg.frame_bytes cap_ xs small
          (overhead_fits cfg.frame_bytes scratch_len small buf room) in
      let (n, le, w, all) =
        subst (Streamed wire Left (length sent < cfg.max_chunks) q u) e
          (stream_client_run-Streamed cfg tr src scratch_len wire Left c fuel u xs has small buf) in
      let got : joined bufs ≡ take n q =
        sym (drop-append_length (wire u) (joined bufs))
        ∙ (ap (drop (length (wire u))) (sym j ∙ w) ∙ drop-append_length (wire u) (take n q)) in
      let (rest0, front) = frames_prefix cfg.max_chunks cfg.frame_bytes xs in
      let (rest, part) = part_read cap_ sent header five fit b n xs rest0 front in
      let whole = whole_read cap_ sent header five fit b in
      (
        pushes keep_spans new_parser (take n q),
        rest,
        feed_all_lem keep_spans bufs fuel' new_parser keep_spans-SplitsFor new_parser-Ready h
            ∙ ap {A = Bytes} (λ x. some (pushes keep_spans new_parser x)) got,
        part,
        elim (is_timeout ev) [
          | inr other ↦ inr (inl other)
          | inl ended ↦ elim (Bool-cases (ltb (length sent) cfg.max_chunks)) [
            | inr many ↦ inr (inr (ground (arith, many)))
            | inl few ↦
                let count : length sent < cfg.max_chunks = ground (arith, few) in
                let full : pushes keep_spans new_parser (take n q)
                    ≡ pushes keep_spans new_parser q =
                  ap (pushes keep_spans new_parser)
                    (take_all n q (omega (arith, all ended count))) in
                inl (
                  ap (λ i. i.user) (full ∙ whole)
                      ∙ joined-frames cfg.max_chunks cfg.frame_bytes xs some_ count,
                  ap (λ i. i.complete) (full ∙ whole),
                  ap (λ i. i.state) (full ∙ whole),
                )
          ]
        ],
      )
