-- ===== src/HttpIngest/Feed/Spans.antt =====
-- A span of a chunk, byte by byte; and that a parser inside a chunk always has bytes of it left.
use esp32s3_inmp.Base.{
  ℕ, suc, ◌-◌, ◌≤◌, ◌<◌, ◌≡◌, refl, sym, ap, ◌∙◌, Bool, true, false, Bytes, [], ◌∷◌, ◌++◌, Option,
  none, some, arith, length,
}
use esp32s3_inmp.HttpIngest.{
  State, request_line, header_line, chunk_size, chunk_data, chunk_crlf, trailer, done, error,
  HttpIngest, Callbacks, call_payload, line_done, line_done_in, data_done, request_done, size_done,
  parse_request_line, parse_header_line, header_parts, call_header, store_header,
}
use esp32s3_inmp.HttpIngest.Feed.{SplitsFor, Ready, is_line_state, push_in, push, pushes, unread}

module _ {U : Type 0} (cb : Callbacks U) where
  -- A call with a span in two pieces.
  call_payload-append :
      (o : Option (U → Bytes → U)) (a b : Bytes) (ing : HttpIngest U)
      → SplitsFor o
      → call_payload cb o b (call_payload cb o a ing) ≡ call_payload cb o (a ++ b) ing
  call_payload-append none a b ing s = refl
  call_payload-append (some f) a b ing s = λ i. record ing { user = sym (s ing.user a b) i }

  call_payload-fields :
      (o : Option (U → Bytes → U)) (a : Bytes) (ing : HttpIngest U)
      → ((call_payload cb o a ing).chunk_remaining ≡ ing.chunk_remaining)
        × ((call_payload cb o a ing).state ≡ ing.state)
  call_payload-fields none a ing = (refl, refl)
  call_payload-fields (some f) a ing = (refl, refl)

  call_payload-record :
      (o : Option (U → Bytes → U)) (a : Bytes) (ing : HttpIngest U) (n : ℕ) (s : State)
      → call_payload cb o a (record ing { chunk_remaining = n; state = s })
        ≡ record (call_payload cb o a ing) { chunk_remaining = n; state = s }
  call_payload-record none a ing n s = refl
  call_payload-record (some f) a ing n s = refl

  data_done-split :
      (ing : HttpIngest U) (c d : ℕ) (a : Bytes)
      → SplitsFor cb.on_payload
      → ing.state ≡ chunk_data
      → suc (suc (length a)) ≤ ing.chunk_remaining
      → data_done cb (data_done cb ing (c ∷ [])) (d ∷ a) ≡ data_done cb ing (c ∷ d ∷ a)
  unfolding data_done
  data_done-split ing c d a s st le = ground (
    arith,
    call_payload-append cb.on_payload (c ∷ []) (d ∷ a) ing s,
    call_payload-fields cb.on_payload (c ∷ []) ing,
    call_payload-fields cb.on_payload (c ∷ d ∷ a) ing,
    call_payload-record cb.on_payload (d ∷ a) (call_payload cb cb.on_payload (c ∷ []) ing)
        (ing.chunk_remaining - 1) chunk_data,
  )

  data_done-one :
      (ing : HttpIngest U) (c : ℕ)
      → ing.state ≡ chunk_data
      → 1 < ing.chunk_remaining
      → ((data_done cb ing (c ∷ [])).state ≡ chunk_data)
        × ((data_done cb ing (c ∷ [])).chunk_remaining ≡ ing.chunk_remaining - 1)
  unfolding data_done
  data_done-one ing c st le = ground (arith, call_payload-fields cb.on_payload (c ∷ []) ing)

  push_data :
      (ing : HttpIngest U) (c : ℕ)
      → ing.state ≡ chunk_data
      → push cb ing c ≡ data_done cb ing (c ∷ [])
  unfolding push push_in
  push_data ing c st = rw st

  unread-step :
      (ing : HttpIngest U) (c : ℕ) (buf : Bytes)
      → ing.state ≡ chunk_data
      → unread cb ing (c ∷ buf) ≡ unread cb (push cb ing c) buf
  unfolding unread
  unread-step ing c buf st = ground arith

  -- A span inside a chunk, byte by byte.
  pub data_means :
      (ing : HttpIngest U) (c : ℕ) (a rest : Bytes)
      → SplitsFor cb.on_payload
      → ing.state ≡ chunk_data
      → suc (length a) ≤ ing.chunk_remaining
      → (pushes cb ing (c ∷ a ++ rest) ≡ pushes cb (data_done cb ing (c ∷ a)) rest)
        × (unread cb ing (c ∷ a ++ rest) ≡ unread cb (data_done cb ing (c ∷ a)) rest)
  unfolding pushes unread
  data_means ing c [] rest s st le =
      let e = push_data ing c st in
      (ap (λ i. pushes cb i rest) e, unread-step ing c rest st ∙ ap (λ i. unread cb i rest) e)
  data_means ing c (d ∷ a) rest s st le =
      let (st', left) = data_done-one ing c st (omega arith) in
      let (p, u) = data_means (data_done cb ing (c ∷ [])) d a rest s st' (omega arith) in
      let first = push_data ing c st in
      let e = data_done-split ing c d a s st le in
      (
        ap (λ i. pushes cb i (d ∷ a ++ rest)) first ∙ (p ∙ ap (λ i. pushes cb i rest) e),
        unread-step ing c (d ∷ a ++ rest) st
            ∙ (ap (λ i. unread cb i (d ∷ a ++ rest)) first ∙ (u ∙ ap (λ i. unread cb i rest) e)),
      )

  call_header-state :
      (o : Option (U → Bytes → Bytes → U)) (name value : Bytes) (ing : HttpIngest U)
      → (call_header cb o name value ing).state ≡ ing.state
  unfolding call_header
  call_header-state none name value ing = refl
  call_header-state (some f) name value ing = refl

  store_header-state :
      (name value : Bytes) (ing : HttpIngest U) → (store_header name value ing).state ≡ ing.state
  unfolding store_header
  store_header-state name value ing = ground arith

  header_parts-state :
      (o : Option (Bytes × Bytes)) (ing : HttpIngest U) → (header_parts cb o ing).state ≡ ing.state
  unfolding header_parts
  header_parts-state none ing = refl
  header_parts-state (some (name, after)) ing =
      call_header-state cb.on_header name _ _ ∙ store_header-state name _ ing

  parse_header_line-state : (ing : HttpIngest U) → (parse_header_line cb ing).state ≡ ing.state
  unfolding parse_header_line
  parse_header_line-state ing = header_parts-state _ ing

  request_done-Ready : (r : Bool × HttpIngest U) → Ready (request_done cb r)
  unfolding request_done
  request_done-Ready (true, ing) st = cc
  request_done-Ready (false, ing) st = cc

  line_done_in-Ready :
      (s : State) (ing : HttpIngest U)
      → ing.state ≡ s
      → is_line_state s ≡ true
      → Ready (line_done_in cb s ing)
  unfolding line_done_in size_done
  line_done_in-Ready request_line ing e h st = request_done-Ready (parse_request_line ing) st
  line_done_in-Ready header_line ing e h st = ground (arith, parse_header_line-state ing)
  line_done_in-Ready chunk_size ing e h st = ground arith
  line_done_in-Ready chunk_crlf ing e h st = ground arith
  line_done_in-Ready trailer ing e h st = cc
  line_done_in-Ready chunk_data ing e h st = cc
  line_done_in-Ready done ing e h st = cc
  line_done_in-Ready error ing e h st = cc

  pub line_done-Ready :
      (ing : HttpIngest U) → is_line_state ing.state ≡ true → Ready (line_done cb ing)
  unfolding line_done
  line_done-Ready ing h = line_done_in-Ready ing.state ing refl h

  pub data_done-Ready :
      (ing : HttpIngest U) (span : Bytes) → ing.state ≡ chunk_data → Ready (data_done cb ing span)
  unfolding data_done
  data_done-Ready ing span st = ground arith

  -- The last span of a chunk.
  pub data_done_last :
      (ing : HttpIngest U) (span : Bytes)
      → 0 < length span
      → ing.chunk_remaining ≡ length span
      → ing.state ≡ chunk_data
      → data_done cb ing span ≡ record (call_payload cb cb.on_payload span ing) {
        chunk_remaining = 0;
        state = chunk_crlf;
      }
  unfolding data_done
  data_done_last ing span pos e st = ground arith
