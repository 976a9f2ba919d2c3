-- ===== src/HttpIngest/Feed/Keeps.antt =====
-- `http_ingest_feed` with any payload callback: it returns, and keeps what the callback keeps.
use esp32s3_inmp.Base.{
  ℕ, zero, suc, ◌≤◌, ◌<◌, ◌≡◌, refl, sym, ◌∙◌, subst, true, false, Bytes, [], ◌∷◌, ◌++◌, Option,
  none, some, arith, ltb, length, take, length-take, length-drop, Bool, Bool-cases, inl, inr, ◌==◌,
  leb,
}
use esp32s3_inmp.HttpIngest.{
  State, request_line, header_line, chunk_size, chunk_data, chunk_crlf, trailer, done, error,
  HttpIngest, Callbacks, is_done, is_error, LineResult, whole, partial, too_long, accumulate_line,
  Round, again, wait, failure, line_done, line_done_in, request_done, size_done, round_on,
  line_round_of, line_round, data_take, data_done, data_round, round_in, feed_loop,
  http_ingest_feed, next_round, call_payload, parse_header_line, header_parts, call_header,
  parse_request_line, store_header, split_at, c_str, parse_method, parse_path,
}
use esp32s3_inmp.HttpIngest.Feed.{Ready, is_line_state}
use esp32s3_inmp.HttpIngest.Feed.Spans.{line_done-Ready, data_done-Ready}

-- A payload callback keeps `P` on spans of at most `most` bytes.
abbrev pub KeptBy : {U : Type 0} → (U → Type 0) → ℕ → Option (U → Bytes → U) → Type 0
KeptBy P most none = Unit {0}
KeptBy {U} P most (some f) = (u : U) (span : Bytes) → length span ≤ most → P u → P (f u span)

-- Feeding returns, and leaves `P` behind.
abbrev pub FeedKeeps : {U : Type 0} → (U → Type 0) → Option (Option Bytes × HttpIngest U) → Type 0
FeedKeeps {U} P r =
    (left : Option Bytes) × (ing : HttpIngest U) × (r ≡ some (left, ing)) × P ing.user × Ready ing

-- A round of reading a line that ends one consumes a byte.
RestIsShorter : LineResult → Bytes → Type 0
RestIsShorter (whole line rest) buf = length rest < length buf
RestIsShorter _ buf = Unit {0}

accumulate_line-RestIsShorter : (line buf : Bytes) → RestIsShorter (accumulate_line line buf) buf
unfolding accumulate_line RestIsShorter
accumulate_line-RestIsShorter line [] = tt
accumulate_line-RestIsShorter line (c ∷ buf) = elim (Bool-cases (c == b'\n')) [
  | inl e ↦ rw e (omega arith)
  | inr e ↦ elim (Bool-cases (leb 511 (length line))) [
    | inl full ↦ rw (e, full) tt
    | inr room ↦
        rw (e, room)
          (one_longer (accumulate_line (line ++ (c ∷ [])) buf) c buf
            (accumulate_line-RestIsShorter (line ++ (c ∷ [])) buf))
  ]
]
  where
    one_longer :
        (r : LineResult) (c : ℕ) (buf : Bytes) → RestIsShorter r buf → RestIsShorter r (c ∷ buf)
    one_longer (whole l rest) c buf h = omega arith
    one_longer (partial l) c buf h = tt
    one_longer (too_long l) c buf h = tt

parse_path-user :
    {U : Type 0} (o : Option (Bytes × Bytes)) (ing : HttpIngest U)
    → (parse_path o ing).1.user ≡ ing.user
unfolding parse_path
parse_path-user none ing = refl
parse_path-user (some (path, rest)) ing = ground arith

parse_method-user :
    {U : Type 0} (o : Option (Bytes × Bytes)) (ing : HttpIngest U)
    → (parse_method o ing).1.user ≡ ing.user
unfolding parse_method
parse_method-user none ing = refl
parse_method-user (some (method, rest)) ing =
    ground (arith, parse_path-user (split_at b' ' rest) (record ing { method = method }))

store_header-user :
    {U : Type 0} (name value : Bytes) (ing : HttpIngest U)
    → (store_header name value ing).user ≡ ing.user
unfolding store_header
store_header-user name value ing = ground arith

module _ {U : Type 0} (cb : Callbacks U) (unheard : cb.on_header ≡ none) where
  call_header-user :
      (o : Option (U → Bytes → Bytes → U)) (name value : Bytes) (ing : HttpIngest U)
      → o ≡ none
      → (call_header cb o name value ing).user ≡ ing.user
  unfolding call_header
  call_header-user none name value ing e = refl
  call_header-user (some f) name value ing e = cc

  header_parts-user :
      (o : Option (Bytes × Bytes)) (ing : HttpIngest U) → (header_parts cb o ing).user ≡ ing.user
  unfolding header_parts
  header_parts-user none ing = refl
  header_parts-user (some (name, after)) ing =
      call_header-user cb.on_header name _ _ unheard ∙ store_header-user name _ ing

  request_done-user : (r : Bool × HttpIngest U) → (request_done cb r).user ≡ r.1.user
  unfolding request_done
  request_done-user (true, ing) = refl
  request_done-user (false, ing) = refl

  line_done_in-user : (s : State) (ing : HttpIngest U) → (line_done_in cb s ing).user ≡ ing.user
  unfolding line_done_in size_done parse_request_line parse_header_line
  line_done_in-user request_line ing =
      request_done-user (parse_request_line ing)
      ∙ parse_method-user (split_at b' ' (c_str ing.line)) ing
  line_done_in-user header_line ing =
      ground (arith, header_parts-user (split_at b':' (c_str ing.line)) ing)
  line_done_in-user chunk_size ing = ground arith
  line_done_in-user chunk_crlf ing = ground arith
  line_done_in-user trailer ing = refl
  line_done_in-user chunk_data ing = refl
  line_done_in-user done ing = refl
  line_done_in-user error ing = refl

  line_done-user : (ing : HttpIngest U) → (line_done cb ing).user ≡ ing.user
  unfolding line_done
  line_done-user ing = line_done_in-user ing.state ing

  module _ (P : U → Type 0) (most : ℕ) (kept : KeptBy P most cb.on_payload) where
    -- What a round leaves behind.
    abbrev RoundKeeps : Round U → Bytes → Type 0
    RoundKeeps (again ing rest) buf = P ing.user × Ready ing × (length rest < length buf)
    RoundKeeps (wait ing) buf = P ing.user × Ready ing
    RoundKeeps (failure ing) buf = P ing.user × Ready ing

    line_round_of-RoundKeeps :
        (o : LineResult) (ing : HttpIngest U) (buf : Bytes)
        → is_line_state ing.state ≡ true
        → RestIsShorter o buf
        → P ing.user
        → RoundKeeps (line_round_of cb o ing) buf
    unfolding line_round_of RestIsShorter round_on
    line_round_of-RoundKeeps (partial line) ing buf h lt p = (p, λ e. ground arith)
    line_round_of-RoundKeeps (too_long line) ing buf h lt p = (p, λ e. cc)
    line_round_of-RoundKeeps (whole line rest) ing buf h lt p =
        let after : HttpIngest U = line_done cb (record ing { line = line }) in
        let p' : P after.user = subst P (sym (line_done-user (record ing { line = line }))) p in
        let r : Ready after = line_done-Ready cb (record ing { line = line }) h in
        elim (Bool-cases (is_error after.state)) [ inl e ↦ rw e (p', r) | inr e ↦ rw e (p', r, lt) ]

    line_round-RoundKeeps :
        (ing : HttpIngest U) (buf : Bytes)
        → is_line_state ing.state ≡ true
        → P ing.user
        → RoundKeeps (line_round cb ing buf) buf
    unfolding line_round
    line_round-RoundKeeps ing buf h p =
        line_round_of-RoundKeeps (accumulate_line ing.line buf) ing buf h
          (accumulate_line-RestIsShorter ing.line buf) p

    call_payload-kept :
        (o : Option (U → Bytes → U)) (span : Bytes) (ing : HttpIngest U)
        → KeptBy P most o
        → length span ≤ most
        → P ing.user
        → P (call_payload cb o span ing).user
    call_payload-kept none span ing k le p = p
    call_payload-kept (some f) span ing k le p = k ing.user span le p

    data_done-kept :
        (ing : HttpIngest U) (span : Bytes)
        → length span ≤ most
        → P ing.user
        → P (data_done cb ing span).user
    unfolding data_done
    data_done-kept ing span le p = elim (Bool-cases (ltb 0 (length span))) [
      | inl e ↦ rw e (call_payload-kept cb.on_payload span ing kept le p)
      | inr e ↦ rw e p
    ]

    data_round-RoundKeeps :
        (ing : HttpIngest U) (c : ℕ) (buf : Bytes)
        → ing.state ≡ chunk_data
        → 0 < ing.chunk_remaining
        → length (c ∷ buf) ≤ most
        → P ing.user
        → RoundKeeps (data_round cb ing (c ∷ buf)) (c ∷ buf)
    unfolding data_round data_take
    data_round-RoundKeeps ing c buf st room le p =
        let n : ℕ = data_take cb ing (c ∷ buf) in
        (
          data_done-kept ing (take n (c ∷ buf)) (omega (arith, length-take n (c ∷ buf))) p,
          data_done-Ready cb ing (take n (c ∷ buf)) st,
          ground (arith, length-drop n (c ∷ buf)),
        )

    round_in-RoundKeeps :
        (st : State) (ing : HttpIngest U) (c : ℕ) (buf : Bytes)
        → ing.state ≡ st
        → Ready ing
        → length (c ∷ buf) ≤ most
        → P ing.user
        → RoundKeeps (round_in cb st ing (c ∷ buf)) (c ∷ buf)
    unfolding round_in
    round_in-RoundKeeps request_line ing c buf e r le p =
        line_round-RoundKeeps ing (c ∷ buf) (rw e) p
    round_in-RoundKeeps header_line ing c buf e r le p =
        line_round-RoundKeeps ing (c ∷ buf) (rw e) p
    round_in-RoundKeeps chunk_size ing c buf e r le p = line_round-RoundKeeps ing (c ∷ buf) (rw e) p
    round_in-RoundKeeps chunk_data ing c buf e r le p = data_round-RoundKeeps ing c buf e (r e) le p
    round_in-RoundKeeps chunk_crlf ing c buf e r le p = line_round-RoundKeeps ing (c ∷ buf) (rw e) p
    round_in-RoundKeeps trailer ing c buf e r le p = line_round-RoundKeeps ing (c ∷ buf) (rw e) p
    round_in-RoundKeeps done ing c buf e r le p = (p, λ s. cc)
    round_in-RoundKeeps error ing c buf e r le p = (p, λ s. cc)

    next_round-FeedKeeps :
        (o : Round U) (buf : Bytes)
        (loop : HttpIngest U → Bytes → Option (Option Bytes × HttpIngest U))
        → ((ing : HttpIngest U) (rest : Bytes)
            → Ready ing
            → P ing.user
            → length rest < length buf
            → FeedKeeps P (loop ing rest))
        → RoundKeeps o buf
        → FeedKeeps P (next_round cb loop o)
    unfolding next_round
    next_round-FeedKeeps (again ing rest) buf loop ih (p, r, lt) = ih ing rest r p lt
    next_round-FeedKeeps (wait ing) buf loop ih (p, r) = (some [], ing, refl, p, r)
    next_round-FeedKeeps (failure ing) buf loop ih (p, r) = (none, ing, refl, p, r)

    feed_loop-FeedKeeps :
        (fuel : ℕ) (ing : HttpIngest U) (buf : Bytes)
        → Ready ing
        → P ing.user
        → length buf ≤ fuel
        → length buf ≤ most
        → FeedKeeps P (feed_loop cb fuel ing buf)
    unfolding feed_loop
    feed_loop-FeedKeeps fuel ing [] r p le m = (some [], ing, refl, p, r)
    feed_loop-FeedKeeps zero ing (c ∷ buf) r p le m = absurd (omega arith)
    feed_loop-FeedKeeps (suc fuel) ing (c ∷ buf) r p le m = elim (Bool-cases (is_done ing.state)) [
      | inl d ↦ rw (d, feed_loop) (some (c ∷ buf), ing, refl, p, r)
      | inr nd ↦
          rw (nd, feed_loop)
            (next_round-FeedKeeps (round_in cb ing.state ing (c ∷ buf)) (c ∷ buf)
              (feed_loop cb fuel)
              (λ ing' rest r' p' lt.
                feed_loop-FeedKeeps fuel ing' rest r' p' (omega arith) (omega arith))
              (round_in-RoundKeeps ing.state ing c buf refl r m p))
    ]

    -- Feeding returns, with as much fuel as there are bytes, and keeps what the payload callback keeps.
    pub http_ingest_feed-FeedKeeps :
        (fuel : ℕ) (ing : HttpIngest U) (buf : Bytes)
        → Ready ing
        → P ing.user
        → length buf ≤ fuel
        → length buf ≤ most
        → FeedKeeps P (http_ingest_feed cb fuel ing buf)
    unfolding http_ingest_feed
    http_ingest_feed-FeedKeeps fuel ing buf r p le m = elim (Bool-cases (is_error ing.state)) [
      | inl e ↦ rw e (none, ing, refl, p, r)
      | inr e ↦ rw e (feed_loop-FeedKeeps fuel ing buf r p le m)
    ]
