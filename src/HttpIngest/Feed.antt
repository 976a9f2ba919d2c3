-- ===== src/HttpIngest/Feed.antt =====
-- server/src/http_ingest.c: an automaton that takes the input one byte at a time, against which the
-- loop of `http_ingest_feed` is read.
pub mod Spans
pub mod Loop
pub mod Cuts
pub mod Keeps
use esp32s3_inmp.Base.{
  ℕ, zero, suc, ◌+◌, ◌-◌, ◌≤◌, ◌<◌, ◌≡◌, refl, sym, ap, ◌∙◌, Bool, true, false, Bytes, [], ◌∷◌,
  ◌++◌, Option, none, some, arith, if◌then◌else◌, ◌==◌, ltb, leb, length, take, drop, Bool-cases,
  inl, inr,
}
use esp32s3_inmp.HttpIngest.Line.{strip_cr}
use esp32s3_inmp.HttpIngest.{
  State, request_line, header_line, chunk_size, chunk_data, chunk_crlf, trailer, done, error,
  HttpIngest, Callbacks, is_done, is_error, LineResult, whole, partial, too_long, accumulate_line,
  Round, again, wait, failure, fail, call_payload, line_done, line_done_in, round_on, line_round_of,
  line_round, data_take, data_done, data_round, round_in, feed_loop, http_ingest_feed, line_max,
  request_done, size_done, parse_request_line, parse_header_line, header_parts, call_header,
  store_header,
}

-- The payload callback takes two spans one after the other as it takes them in one piece.
abbrev pub SplitsFor : {U : Type 0} → Option (U → Bytes → U) → Type 0
SplitsFor none = Unit {0}
SplitsFor {U} (some f) = (u : U) (a b : Bytes) → f u (a ++ b) ≡ f (f u a) b

-- A parser inside a chunk has bytes of it left.
abbrev pub Ready : {U : Type 0} → HttpIngest U → Type 0
Ready ing = ing.state ≡ chunk_data → 0 < ing.chunk_remaining

abbrev pub is_line_state : State → Bool
is_line_state chunk_data = false
is_line_state done = false
is_line_state error = false
is_line_state _ = true

module _ {U : Type 0} (cb : Callbacks U) where
  -- The automaton.
  pub line_push : HttpIngest U → ℕ → HttpIngest U
  line_push ing c =
      if c == b'\n'
      then line_done cb (record ing { line = strip_cr ing.line })
      else if leb (line_max - 1) (length ing.line)
      then fail ing
      else record ing { line = ing.line ++ (c ∷ []) }

  pub push_in : State → HttpIngest U → ℕ → HttpIngest U
  push_in chunk_data ing c = data_done cb ing (c ∷ [])
  push_in done ing c = ing
  push_in error ing c = ing
  push_in _ ing c = line_push ing c

  unfoldable pub push : HttpIngest U → ℕ → HttpIngest U
  push ing c = push_in ing.state ing c

  unfoldable pub pushes : HttpIngest U → Bytes → HttpIngest U
  pushes ing [] = ing
  pushes ing (c ∷ buf) = pushes (push ing c) buf

  pub pushes-append :
      (ing : HttpIngest U) (a b : Bytes) → pushes ing (a ++ b) ≡ pushes (pushes ing a) b
  unfolding pushes
  pushes-append ing [] b = refl
  pushes-append ing (c ∷ a) b = pushes-append (push ing c) a b

  -- What is not consumed: the input from where the parser is done.
  unfoldable pub unread : HttpIngest U → Bytes → Bytes
  unread ing [] = []
  unread ing (c ∷ buf) =
      let rest = unread (push ing c) buf in if is_done ing.state then c ∷ buf else rest

  pub push_error :
      (ing : HttpIngest U) (buf : Bytes) → is_error ing.state ≡ true → pushes ing buf ≡ ing
  unfolding push push_in pushes
  push_error ing [] h = refl
  push_error ing (c ∷ buf) h = ground (arith, push_error ing buf h)

  pub push_done :
      (ing : HttpIngest U) (buf : Bytes) → is_done ing.state ≡ true → pushes ing buf ≡ ing
  unfolding push push_in pushes
  push_done ing [] h = refl
  push_done ing (c ∷ buf) h = ground (arith, push_done ing buf h)

  pub push_line :
      (ing : HttpIngest U) (c : ℕ) → is_line_state ing.state ≡ true → push ing c ≡ line_push ing c
  unfolding push push_in
  push_line ing c h = ground arith

  -- What a round of reading a line comes to, in the automaton's words.
  abbrev pub LineMeans : LineResult → HttpIngest U → Bytes → Type 0
  LineMeans (partial line) ing buf =
      (pushes ing buf ≡ record ing { line = line }) × (unread ing buf ≡ [])
  LineMeans (too_long line) ing buf = pushes ing buf ≡ fail (record ing { line = line })
  LineMeans (whole line rest) ing buf =
      (pushes ing buf ≡ pushes (line_done cb (record ing { line = line })) rest)
      × (unread ing buf ≡ unread (line_done cb (record ing { line = line })) rest)
      × (length rest < length buf)

  pub line_state-not_done : (s : State) → is_line_state s ≡ true → is_done s ≡ false
  line_state-not_done s h = ground arith

  pub push_newline :
      (ing : HttpIngest U) (c : ℕ)
      → is_line_state ing.state ≡ true
      → (c == b'\n') ≡ true
      → push ing c ≡ line_done cb (record ing { line = strip_cr ing.line })
  unfolding line_push
  push_newline ing c h e = push_line ing c h ∙ rw e

  push_full :
      (ing : HttpIngest U) (c : ℕ)
      → is_line_state ing.state ≡ true
      → (c == b'\n') ≡ false
      → leb (line_max - 1) (length ing.line) ≡ true
      → push ing c ≡ fail ing
  unfolding line_push
  push_full ing c h e full = push_line ing c h ∙ rw (e, full)

  pub push_char :
      (ing : HttpIngest U) (c : ℕ)
      → is_line_state ing.state ≡ true
      → (c == b'\n') ≡ false
      → leb (line_max - 1) (length ing.line) ≡ false
      → push ing c ≡ record ing { line = ing.line ++ (c ∷ []) }
  unfolding line_push
  push_char ing c h e room = push_line ing c h ∙ rw (e, room)

  -- The meaning of a result, carried back over one more character of the line.
  LineMeans-char :
      (r : LineResult) (ing : HttpIngest U) (c : ℕ) (buf line : Bytes)
      → is_done ing.state ≡ false
      → push ing c ≡ record ing { line = line }
      → LineMeans r (record ing { line = line }) buf
      → LineMeans r ing (c ∷ buf)
  unfolding pushes unread
  LineMeans-char (partial l) ing c buf line nd e (p, u) = (rw e p, rw (nd, e) u)
  LineMeans-char (too_long l) ing c buf line nd e p = rw e p
  LineMeans-char (whole l rest) ing c buf line nd e (p, u, lt) = (rw e p, rw (nd, e) u, omega arith)

  pub line_means :
      (ing : HttpIngest U) (buf : Bytes)
      → is_line_state ing.state ≡ true
      → LineMeans (accumulate_line ing.line buf) ing buf
  unfolding accumulate_line pushes unread
  line_means ing [] h = (refl, refl)
  line_means ing (c ∷ buf) h =
      let nd : is_done ing.state ≡ false = line_state-not_done ing.state h in
      let ih = line_means (record ing { line = ing.line ++ (c ∷ []) }) buf h in
      elim (Bool-cases (c == b'\n')) [
        | inl e ↦
            let p = push_newline ing c h e in
            rw e (ap (λ i. pushes i buf) p, rw (nd, p), omega arith)
        | inr e ↦ elim (Bool-cases (leb (line_max - 1) (length ing.line))) [
          | inl full ↦
              let p = push_full ing c h e full in
              rw (e, full) (ap (λ i. pushes i buf) p ∙ push_error (fail ing) buf refl)
          | inr room ↦
              rw (e, room)
                (LineMeans-char (accumulate_line (ing.line ++ (c ∷ [])) buf) ing c buf _ nd
                  (push_char ing c h e room) ih)
        ]
      ]
