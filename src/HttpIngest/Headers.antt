-- ===== src/HttpIngest/Headers.antt =====
-- The headers of a request: the request line, the lines of the headers and the blank line behind them.
use esp32s3_inmp.Base.{
  ◌-◌, ◌<◌, ◌≡◌, refl, ◌∙◌, Bool, true, false, List, Bytes, [], ◌∷◌, ◌++◌, ◌==◌, arith, length,
  Option, none, some,
}
use esp32s3_inmp.HttpIngest.Line.{AllPlain, split_at, c_str}
use esp32s3_inmp.HttpIngest.{
  State, header_line, chunk_size, HttpIngest, Callbacks, line_done, line_max, line_done_in,
  request_done, parse_request_line, parse_header_line, header_parts, call_header, store_header,
  http_ingest_init, parse_path, parse_method,
}
use esp32s3_inmp.HttpIngest.Feed.{pushes}
use esp32s3_inmp.HttpIngest.Whole.{push_whole}

-- Lines, each with its CRLF, and the blank line.
abbrev pub text_of : List Bytes → Bytes
text_of [] = 13 ∷ 10 ∷ []
text_of (line ∷ lines) = line ++ (13 ∷ 10 ∷ text_of lines)

-- A line of a header: not empty, without control characters that end it, and short enough.
pub record IsLine (line : Bytes) : Type 0 where
  pub some_text : 0 < length line
  pub plain : AllPlain line
  pub short : length line < line_max - 1

abbrev pub AllLines : List Bytes → Type 0
AllLines [] = Unit {0}
AllLines (line ∷ lines) = IsLine line × AllLines lines

-- A parser in front of a line of state `s`, that has handed out what it has handed out.
pub record Before {U : Type 0} (s : State) (ing : HttpIngest U) (user : U) : Type 0 where
  pub is_at : ing.state ≡ s
  pub no_line : ing.line ≡ []
  pub nothing_left : ing.chunk_remaining ≡ 0
  pub same_user : ing.user ≡ user

-- What the handling of a header leaves as it is.
abbrev Kept : {U : Type 0} → HttpIngest U → HttpIngest U → Type 0
Kept ing ing' =
    (ing'.state ≡ ing.state) × (ing'.chunk_remaining ≡ ing.chunk_remaining) × (ing'.user ≡ ing.user)

store_header-Kept :
    {U : Type 0} (name value : Bytes) (ing : HttpIngest U) → Kept ing (store_header name value ing)
unfolding store_header
store_header-Kept name value ing = ground arith

parse_path-Kept :
    {U : Type 0} (o : Option (Bytes × Bytes)) (ing : HttpIngest U) → Kept ing (parse_path o ing).1
unfolding parse_path
parse_path-Kept none ing = (refl, refl, refl)
parse_path-Kept (some (path, rest)) ing = ground arith

parse_method-Kept :
    {U : Type 0} (o : Option (Bytes × Bytes)) (ing : HttpIngest U) → Kept ing (parse_method o ing).1
unfolding parse_method
parse_method-Kept none ing = (refl, refl, refl)
parse_method-Kept (some (method, rest)) ing =
    ground (arith, parse_path-Kept (split_at b' ' rest) (record ing { method = method }))

module _ {U : Type 0} (cb : Callbacks U) (unheard : cb.on_header ≡ none) where
  call_header-Kept :
      (o : Option (U → Bytes → Bytes → U)) (name value : Bytes) (ing : HttpIngest U)
      → o ≡ none
      → Kept ing (call_header cb o name value ing)
  unfolding call_header
  call_header-Kept none name value ing e = (refl, refl, refl)
  call_header-Kept (some f) name value ing e = absurd cc

  header_parts-Kept :
      (o : Option (Bytes × Bytes)) (ing : HttpIngest U) → Kept ing (header_parts cb o ing)
  unfolding header_parts
  header_parts-Kept none ing = (refl, refl, refl)
  header_parts-Kept (some (name, after)) ing =
      let (s, n, u) = store_header-Kept name _ ing in
      let (s', n', u') = call_header-Kept cb.on_header name _ (store_header name _ ing) unheard in
      (s' ∙ s, n' ∙ n, u' ∙ u)

  -- A line of a header.
  header_line-Before :
      (ing : HttpIngest U) (line : Bytes) (u : U)
      → Before header_line ing u
      → 0 < length line
      → Before header_line (line_done cb (record ing { line = line })) u
  unfolding line_done line_done_in parse_header_line
  header_line-Before ing line u b pos =
      let (s, n, same) =
        header_parts-Kept (split_at b':' (c_str line))
          (record ing { line = line; state = header_line }) in
      let full : (length line == 0) ≡ false = ground (arith, pos) in
      rw (b.is_at, line_done_in, full)
        (record {
          is_at = s;
          no_line = refl;
          nothing_left = n ∙ b.nothing_left;
          same_user = same ∙ b.same_user;
        })

  blank-Before :
      (ing : HttpIngest U) (u : U)
      → Before header_line ing u
      → Before chunk_size (line_done cb (record ing { line = [] })) u
  unfolding line_done line_done_in
  blank-Before ing u b = rw b.is_at (record {
    is_at = refl;
    no_line = refl;
    nothing_left = b.nothing_left;
    same_user = b.same_user;
  })

  -- The lines of the headers lead to the first chunk.
  pub lines-Before :
      (lines : List Bytes) (ing : HttpIngest U) (u : U)
      → AllLines lines
      → Before header_line ing u
      → Before chunk_size (pushes cb ing (text_of lines)) u
  unfolding pushes
  lines-Before [] ing u l b =
      rw (push_whole cb [] ing [] (rw b.is_at) b.no_line tt (omega arith)) (blank-Before ing u b)
  lines-Before (line ∷ lines) ing u (l, ls) b =
      rw (push_whole cb line ing (text_of lines) (rw b.is_at) b.no_line l.plain l.short) (
        lines-Before lines (line_done cb (record ing { line = line })) u ls
          (header_line-Before ing line u b l.some_text))

  request_done-Before :
      (r : Bool × HttpIngest U) (ing : HttpIngest U)
      → r.0 ≡ true
      → Kept ing r.1
      → ing.chunk_remaining ≡ 0
      → Before header_line (request_done cb r) ing.user
  unfolding request_done
  request_done-Before (true, i) ing e (s, n, u) z = record {
    is_at = refl;
    no_line = refl;
    nothing_left = n ∙ z;
    same_user = u;
  }
  request_done-Before (false, i) ing e k z = absurd cc

  -- A request line that is well formed, the lines of the headers and a blank line leave a new parser in front of
  -- the first chunk, with nothing handed to the payload callback.
  pub header_read :
      (first : Bytes) (lines : List Bytes) (u : U)
      → IsLine first
      → AllLines lines
      → (parse_request_line (record (http_ingest_init u) { line = first })).0 ≡ true
      → Before chunk_size (pushes cb (http_ingest_init u) (text_of (first ∷ lines))) u
  unfolding http_ingest_init line_done line_done_in parse_request_line
  header_read first lines u f ls e =
      let new = record (http_ingest_init u) { line = first } in
      rw (push_whole cb first (http_ingest_init u) (text_of lines) refl refl f.plain f.short) (
        lines-Before lines (line_done cb new) u ls (
          request_done-Before (parse_request_line new) new e
            (parse_method-Kept (split_at b' ' (c_str first)) new) refl))
