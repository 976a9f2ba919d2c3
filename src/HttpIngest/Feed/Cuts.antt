-- ===== src/HttpIngest/Feed/Cuts.antt =====
-- The calls of `http_ingest_feed` on the buffers of a connection, which the network cuts as it likes.
use esp32s3_inmp.HttpIngest.Line.{strip_cr}
use esp32s3_inmp.Base.{
  ℕ, ◌+◌, ◌≤◌, ◌≡◌, refl, sym, ◌∙◌, ap, List, Bytes, [], ◌∷◌, ◌++◌, Option, none, some, arith,
  length, length-append, true,
}
use esp32s3_inmp.HttpIngest.{
  HttpIngest, Callbacks, http_ingest_feed, State, chunk_data, chunk_size, request_line, header_line,
  chunk_crlf, trailer, done, error,
}
use esp32s3_inmp.HttpIngest.Feed.{
  SplitsFor, Ready, push, push_in, pushes, pushes-append, line_push, is_line_state,
}
use esp32s3_inmp.HttpIngest.Feed.Spans.{line_done-Ready, data_done-Ready}
use esp32s3_inmp.HttpIngest.Feed.Loop.{http_ingest_feed_lem}

-- `concat` of buffers.
abbrev pub joined : List Bytes → Bytes
joined [] = []
joined (b ∷ bs) = b ++ joined bs

module _ {U : Type 0} (cb : Callbacks U) where
  -- The calls of `http_ingest_feed` on the buffers of a connection, one after the other.
  pub feed_all : ℕ → HttpIngest U → List Bytes → Option (HttpIngest U)
  feed_all fuel ing [] = some ing
  feed_all fuel ing (b ∷ bs) = elim (http_ingest_feed cb fuel ing b) [
    | none ↦ none
    | some (r, ing') ↦ feed_all fuel ing' bs
  ]

  line_push-Ready :
      (ing : HttpIngest U) (c : ℕ) → is_line_state ing.state ≡ true → Ready (line_push cb ing c)
  unfolding line_push
  line_push-Ready ing c h st =
      ground (arith, line_done-Ready cb (record ing { line = strip_cr ing.line }) h)

  push_in-Ready :
      (s : State) (ing : HttpIngest U) (c : ℕ) → ing.state ≡ s → Ready (push_in cb s ing c)
  unfolding push_in
  push_in-Ready request_line ing c e st = line_push-Ready ing c (rw e) st
  push_in-Ready header_line ing c e st = line_push-Ready ing c (rw e) st
  push_in-Ready chunk_size ing c e st = line_push-Ready ing c (rw e) st
  push_in-Ready chunk_data ing c e st = data_done-Ready cb ing (c ∷ []) e st
  push_in-Ready chunk_crlf ing c e st = line_push-Ready ing c (rw e) st
  push_in-Ready trailer ing c e st = line_push-Ready ing c (rw e) st
  push_in-Ready done ing c e st = cc
  push_in-Ready error ing c e st = cc

  pub pushes-Ready : (ing : HttpIngest U) (buf : Bytes) → Ready ing → Ready (pushes cb ing buf)
  unfolding pushes push
  pushes-Ready ing [] r = r
  pushes-Ready ing (c ∷ buf) r =
      pushes-Ready (push cb ing c) buf (push_in-Ready ing.state ing c refl)

  pub feed_all_lem :
      (bs : List Bytes) (fuel : ℕ) (ing : HttpIngest U)
      → SplitsFor cb.on_payload
      → Ready ing
      → length (joined bs) ≤ fuel
      → feed_all fuel ing bs ≡ some (pushes cb ing (joined bs))
  unfolding feed_all pushes
  feed_all_lem [] fuel ing s r le = refl
  feed_all_lem (b ∷ bs) fuel ing s r le =
      let size : length (b ++ joined bs) ≡ length b + length (joined bs) =
        length-append b (joined bs) in
      rw (http_ingest_feed_lem cb fuel ing b s r (omega arith), feed_all)
        (feed_all_lem bs fuel (pushes cb ing b) s (pushes-Ready ing b r) (omega arith)
          ∙ ap some (sym (pushes-append cb ing b (joined bs))))

  -- Two ways to cut the same bytes into buffers leave the parser in the same state, payload and headers
  -- included. The parser must have bytes left if it is inside a chunk, the payload callback must not mind
  -- how a payload is cut into spans, and the fuel is the number of bytes.
  pub feed_all_cuts :
      (xs ys : List Bytes) (fuel : ℕ) (ing : HttpIngest U)
      → SplitsFor cb.on_payload
      → Ready ing
      → joined xs ≡ joined ys
      → length (joined xs) ≤ fuel
      → (end : HttpIngest U) × (feed_all fuel ing xs ≡ some end) × (feed_all fuel ing ys ≡ some end)
  feed_all_cuts xs ys fuel ing s r e le = (
    pushes cb ing (joined xs),
    feed_all_lem xs fuel ing s r le,
    rw e (feed_all_lem ys fuel ing s r (omega (arith, ap length e))),
  )
