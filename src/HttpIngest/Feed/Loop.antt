-- ===== src/HttpIngest/Feed/Loop.antt =====
-- The loop of `http_ingest_feed` against the automaton.
use esp32s3_inmp.Base.{
  ℕ, zero, suc, ◌≤◌, ◌<◌, ◌≡◌, refl, sym, ap, ◌∙◌, true, false, Bytes, [], ◌∷◌, ◌++◌, Option, none,
  some, arith, if◌then◌else◌, length, take, drop, take-append-drop, length-take, length-drop,
  Bool-cases, inl, inr,
}
use esp32s3_inmp.HttpIngest.{
  State, request_line, header_line, chunk_size, chunk_data, chunk_crlf, trailer, done, error,
  HttpIngest, Callbacks, is_done, is_error, LineResult, whole, partial, too_long, accumulate_line,
  Round, again, wait, failure, fail, line_done, round_on, line_round_of, line_round, data_take,
  data_done, data_round, round_in, feed_loop, http_ingest_feed,
}
use esp32s3_inmp.HttpIngest.Feed.{
  SplitsFor, Ready, is_line_state, pushes, unread, push_error, push_done, line_means, LineMeans,
}
use esp32s3_inmp.HttpIngest.Feed.Spans.{data_means, line_done-Ready, data_done-Ready}
use esp32s3_inmp.HttpIngest.{next_round}

module _ {U : Type 0} (cb : Callbacks U) where
  -- What the loop returns: -1 if the automaton ends in an error, else the input that is not consumed.
  pub fed : HttpIngest U → Bytes → Option Bytes × HttpIngest U
  fed ing buf =
      let end = pushes cb ing buf in
      (if is_error end.state then none else some (unread cb ing buf), end)

  -- What a round means for the rest of the loop.
  abbrev RoundMeans : Round U → HttpIngest U → Bytes → Type 0
  RoundMeans (again ing' rest) ing buf =
      (fed ing buf ≡ fed ing' rest)
      × Ready ing'
      × (is_error ing'.state ≡ false)
      × (length rest < length buf)
  RoundMeans (wait ing') ing buf = fed ing buf ≡ (some [], ing')
  RoundMeans (failure ing') ing buf = fed ing buf ≡ (none, ing')

  fed-eq :
      (ing ing' : HttpIngest U) (buf rest : Bytes)
      → pushes cb ing buf ≡ pushes cb ing' rest
      → unread cb ing buf ≡ unread cb ing' rest
      → fed ing buf ≡ fed ing' rest
  unfolding fed
  fed-eq ing ing' buf rest p u = rw (p, u)

  fed_error :
      (ing ing' : HttpIngest U) (buf : Bytes)
      → is_error ing'.state ≡ true
      → pushes cb ing buf ≡ ing'
      → fed ing buf ≡ (none, ing')
  unfolding fed
  fed_error ing ing' buf e p = rw (p, e)

  round_on_means :
      (ing ing' : HttpIngest U) (buf rest : Bytes)
      → pushes cb ing buf ≡ pushes cb ing' rest
      → unread cb ing buf ≡ unread cb ing' rest
      → Ready ing'
      → length rest < length buf
      → RoundMeans (round_on cb ing' rest) ing buf
  unfolding round_on
  round_on_means ing ing' buf rest p u r lt = elim (Bool-cases (is_error ing'.state)) [
    | inl e ↦ rw e (fed_error ing ing' buf e (p ∙ push_error cb ing' rest e))
    | inr e ↦ rw e (fed-eq ing ing' buf rest p u, r, e, lt)
  ]

  line_round_of_means :
      (o : LineResult) (ing : HttpIngest U) (buf : Bytes)
      → is_line_state ing.state ≡ true
      → LineMeans cb o ing buf
      → RoundMeans (line_round_of cb o ing) ing buf
  unfolding line_round_of fed
  line_round_of_means (partial line) ing buf h (p, u) = rw (p, u) (ground arith)
  line_round_of_means (too_long line) ing buf h p =
      fed_error ing (fail (record ing { line = line })) buf refl p
  line_round_of_means (whole line rest) ing buf h (p, u, lt) =
      round_on_means ing (line_done cb (record ing { line = line })) buf rest p u
        (line_done-Ready cb (record ing { line = line }) h) lt

  line_round_means :
      (ing : HttpIngest U) (buf : Bytes)
      → is_line_state ing.state ≡ true
      → RoundMeans (line_round cb ing buf) ing buf
  unfolding line_round
  line_round_means ing buf h =
      line_round_of_means (accumulate_line ing.line buf) ing buf h (line_means cb ing buf h)

  data_done-not_error :
      (ing : HttpIngest U) (span : Bytes)
      → ing.state ≡ chunk_data
      → is_error (data_done cb ing span).state ≡ false
  unfolding data_done
  data_done-not_error ing span st = ground arith

  span_means :
      (n : ℕ) (ing : HttpIngest U) (c : ℕ) (buf : Bytes)
      → SplitsFor cb.on_payload
      → ing.state ≡ chunk_data
      → 0 < n
      → n ≤ ing.chunk_remaining
      → RoundMeans (again (data_done cb ing (take n (c ∷ buf))) (drop n (c ∷ buf))) ing (c ∷ buf)
  span_means zero ing c buf s st pos le = absurd (omega arith)
  span_means (suc m) ing c buf s st pos le =
      let whole_buf : take m buf ++ drop m buf ≡ buf = take-append-drop m buf in
      let (p, u) =
        data_means cb ing c (take m buf) (drop m buf) s st (omega (arith, length-take m buf)) in
      (
        fed-eq ing (data_done cb ing (c ∷ take m buf)) (c ∷ buf) (drop m buf)
            (ap (λ b. pushes cb ing (c ∷ b)) (sym whole_buf) ∙ p)
            (ap (λ b. unread cb ing (c ∷ b)) (sym whole_buf) ∙ u),
        data_done-Ready cb ing (c ∷ take m buf) st,
        data_done-not_error ing (c ∷ take m buf) st,
        omega (arith, length-drop m buf),
      )

  taken :
      (ing : HttpIngest U) (c : ℕ) (buf : Bytes)
      → 0 < ing.chunk_remaining
      → (0 < data_take cb ing (c ∷ buf)) × (data_take cb ing (c ∷ buf) ≤ ing.chunk_remaining)
  unfolding data_take
  taken ing c buf pos = ground arith

  data_round_means :
      (ing : HttpIngest U) (c : ℕ) (buf : Bytes)
      → SplitsFor cb.on_payload
      → ing.state ≡ chunk_data
      → 0 < ing.chunk_remaining
      → RoundMeans (data_round cb ing (c ∷ buf)) ing (c ∷ buf)
  unfolding data_round
  data_round_means ing c buf s st pos =
      let n : ℕ = data_take cb ing (c ∷ buf) in
      span_means n ing c buf s st (taken ing c buf pos).0 (taken ing c buf pos).1

  round_means :
      (st : State) (ing : HttpIngest U) (c : ℕ) (buf : Bytes)
      → ing.state ≡ st
      → SplitsFor cb.on_payload
      → Ready ing
      → is_error st ≡ false
      → is_done st ≡ false
      → RoundMeans (round_in cb st ing (c ∷ buf)) ing (c ∷ buf)
  unfolding round_in
  round_means request_line ing c buf e s r ne nd = line_round_means ing (c ∷ buf) (rw e)
  round_means header_line ing c buf e s r ne nd = line_round_means ing (c ∷ buf) (rw e)
  round_means chunk_size ing c buf e s r ne nd = line_round_means ing (c ∷ buf) (rw e)
  round_means chunk_data ing c buf e s r ne nd = data_round_means ing c buf s e (r e)
  round_means chunk_crlf ing c buf e s r ne nd = line_round_means ing (c ∷ buf) (rw e)
  round_means trailer ing c buf e s r ne nd = line_round_means ing (c ∷ buf) (rw e)
  round_means done ing c buf e s r ne nd = cc
  round_means error ing c buf e s r ne nd = cc

  next_round_lem :
      (o : Round U) (ing : HttpIngest U) (buf : Bytes)
      (loop : HttpIngest U → Bytes → Option (Option Bytes × HttpIngest U))
      → ((ing' : HttpIngest U) (rest : Bytes)
          → Ready ing'
          → is_error ing'.state ≡ false
          → length rest < length buf
          → loop ing' rest ≡ some (fed ing' rest))
      → RoundMeans o ing buf
      → next_round cb loop o ≡ some (fed ing buf)
  unfolding next_round
  next_round_lem (again ing' rest) ing buf loop ih (p, r, ne, lt) =
      ih ing' rest r ne lt ∙ ap some (sym p)
  next_round_lem (wait ing') ing buf loop ih p = ap some (sym p)
  next_round_lem (failure ing') ing buf loop ih p = ap some (sym p)

  fed_done :
      (ing : HttpIngest U) (c : ℕ) (buf : Bytes)
      → is_done ing.state ≡ true
      → is_error ing.state ≡ false
      → fed ing (c ∷ buf) ≡ (some (c ∷ buf), ing)
  unfolding fed unread
  fed_done ing c buf d ne = rw (push_done cb ing (c ∷ buf) d, ne, d)

  fed_nil : (ing : HttpIngest U) → is_error ing.state ≡ false → fed ing [] ≡ (some [], ing)
  unfolding fed pushes unread
  fed_nil ing ne = rw ne

  feed_loop_lem :
      (fuel : ℕ) (ing : HttpIngest U) (buf : Bytes)
      → SplitsFor cb.on_payload
      → Ready ing
      → is_error ing.state ≡ false
      → length buf ≤ fuel
      → feed_loop cb fuel ing buf ≡ some (fed ing buf)
  unfolding feed_loop
  feed_loop_lem fuel ing [] s r ne le = ap some (sym (fed_nil ing ne))
  feed_loop_lem zero ing (c ∷ buf) s r ne le = absurd (omega arith)
  feed_loop_lem (suc fuel) ing (c ∷ buf) s r ne le = elim (Bool-cases (is_done ing.state)) [
    | inl d ↦ rw (d, feed_loop) (ap some (sym (fed_done ing c buf d ne)))
    | inr nd ↦
        rw (nd, feed_loop)
          (next_round_lem (round_in cb ing.state ing (c ∷ buf)) ing (c ∷ buf) (feed_loop cb fuel)
            (λ ing' rest r' ne' lt. feed_loop_lem fuel ing' rest s r' ne' (omega arith))
            (round_means ing.state ing c buf refl s r ne nd))
  ]

  -- `http_ingest_feed` returns, with as much fuel as there are bytes, and does what the automaton does to
  -- the bytes one at a time: it ends in the automaton's state, and returns -1 exactly if that is the error
  -- state, and otherwise what it did not consume, which is what follows the end of the body. The parser
  -- must have bytes left if it is inside a chunk, and the payload callback must not mind how a payload is
  -- cut into spans.
  pub http_ingest_feed_lem :
      (fuel : ℕ) (ing : HttpIngest U) (buf : Bytes)
      → SplitsFor cb.on_payload
      → Ready ing
      → length buf ≤ fuel
      → http_ingest_feed cb fuel ing buf
        ≡ some (
          if is_error (pushes cb ing buf).state then none else some (unread cb ing buf),
          pushes cb ing buf,
        )
  unfolding http_ingest_feed fed
  http_ingest_feed_lem fuel ing buf s r le = elim (Bool-cases (is_error ing.state)) [
    | inl e ↦ rw (e, push_error cb ing buf e, e)
    | inr ne ↦ rw ne (feed_loop_lem fuel ing buf s r ne le)
  ]
