-- ===== src/HttpIngest.antt =====
-- server/src/http_ingest.c: the incremental parser of the chunked POST.
-- `http_ingest_t` is the record `HttpIngest`. `line` is `line[0 .. line_len)`; `user` is the state behind
-- the callbacks' `user` pointer. The callbacks are parameters, `none` where the pointer is NULL. Bytes
-- are numbers; `size_t` has the 64 bits of the server.
pub mod Line
pub mod Feed
pub mod Whole
pub mod Headers
use esp32s3_inmp.Base.{
  ℕ, zero, suc, ◌+◌, ◌-◌, ◌*◌, ◌%◌, ◌^◌, Bool, true, false, ◌&&◌, ◌||◌, Bytes, [], ◌∷◌, ◌++◌, map,
  Option, none, some, codes, if◌then◌else◌, ◌==◌, ltb, leb, length, take, drop,
}
use esp32s3_inmp.HttpIngest.Line.{
  c_str, split_at, strip_cr, skip_blanks, parse_u32, parse_chunk_size, same_name, size_max,
}

pub data State : Type 0 where
  request_line header_line chunk_size chunk_data chunk_crlf trailer done error : State

pub record HttpIngest (U : Type 0) : Type 0 where
  pub state : State
  pub line : Bytes
  pub chunk_remaining : ℕ
  pub method : Bytes
  pub path : Bytes
  pub session_id : Bytes
  pub wake_conf_milli : ℕ
  pub complete : Bool
  pub failed : Bool
  pub user : U

pub record Callbacks (U : Type 0) : Type 0 where
  pub on_payload : Option (U → Bytes → U)
  pub on_header : Option (U → Bytes → Bytes → U)

abbrev pub line_max : ℕ
line_max = 512

abbrev pub path_max : ℕ
path_max = 128

abbrev pub session_max : ℕ
session_max = 64

abbrev pub is_done : State → Bool
is_done done = true
is_done _ = false

abbrev pub is_error : State → Bool
is_error error = true
is_error _ = false

-- What `accumulate_line` returns: 1 with the line stripped and the input behind it, 0, or -1.
pub data LineResult : Type 0 where
  whole : Bytes → Bytes → LineResult
  partial too_long : Bytes → LineResult

unfoldable pub accumulate_line : Bytes → Bytes → LineResult
accumulate_line line [] = partial line
accumulate_line line (c ∷ buf) =
    let rest = accumulate_line (line ++ (c ∷ [])) buf in
    if c == b'\n'
    then whole (strip_cr line) buf
    else if leb (line_max - 1) (length line)
    then too_long line
    else rest

abbrev copy_field : ℕ → Bytes → Bytes
copy_field size src = take (size - 1) src

-- What one round of the loop of `http_ingest_feed` comes to.
pub data Round (U : Type 0) : Type 0 where
  again : HttpIngest U → Bytes → Round U
  wait failure : HttpIngest U → Round U

module _ {U : Type 0} where
  unfoldable pub http_ingest_init : U → HttpIngest U
  http_ingest_init user = record {
    state = request_line;
    line = [];
    chunk_remaining = 0;
    method = [];
    path = [];
    session_id = [];
    wake_conf_milli = 0;
    complete = false;
    failed = false;
    user = user;
  }

  -- `ing->state = ST_ERROR; ing->error = 1;`
  abbrev pub fail : HttpIngest U → HttpIngest U
  fail ing = record ing { state = error; failed = true }

  abbrev pub reset_line : HttpIngest U → HttpIngest U
  reset_line ing = record ing { line = [] }

  -- The second half of `parse_request_line`, on what follows the method; `none` is -1.
  unfoldable pub parse_path : Option (Bytes × Bytes) → HttpIngest U → Bool × HttpIngest U
  parse_path none ing = (false, ing)
  parse_path (some (path, rest)) ing =
      if length path == 0 || leb path_max (length path)
      then (false, ing)
      else (true, record ing { path = path })

  unfoldable pub parse_method : Option (Bytes × Bytes) → HttpIngest U → Bool × HttpIngest U
  unfolding parse_path
  parse_method none ing = (false, ing)
  parse_method (some (method, rest)) ing =
      if length method == 0 || leb 8 (length method)
      then (false, ing)
      else parse_path (split_at b' ' rest) (record ing { method = method })

  unfoldable pub parse_request_line : HttpIngest U → Bool × HttpIngest U
  unfolding parse_method
  parse_request_line ing = parse_method (split_at b' ' (c_str ing.line)) ing

  -- The two headers that the server knows.
  store_header : Bytes → Bytes → HttpIngest U → HttpIngest U
  store_header name value ing =
      if same_name name (codes "X-SimonSays-Session")
      then record ing { session_id = copy_field session_max value }
      else if same_name name (codes "X-SimonSays-Wake-Conf")
      then record ing { wake_conf_milli = parse_u32 value }
      else ing

module _ {U : Type 0} (cb : Callbacks U) where
  call_header : Option (U → Bytes → Bytes → U) → Bytes → Bytes → HttpIngest U → HttpIngest U
  call_header none name value ing = ing
  call_header (some f) name value ing = record ing { user = f ing.user name value }

  header_parts : Option (Bytes × Bytes) → HttpIngest U → HttpIngest U
  unfolding call_header store_header
  header_parts none ing = ing
  header_parts (some (name, after)) ing =
      let value = skip_blanks after in
      call_header cb.on_header name value (store_header name value ing)

  unfoldable pub parse_header_line : HttpIngest U → HttpIngest U
  unfolding header_parts
  parse_header_line ing = header_parts (split_at b':' (c_str ing.line)) ing

  abbrev pub call_payload : Option (U → Bytes → U) → Bytes → HttpIngest U → HttpIngest U
  call_payload none span ing = ing
  call_payload (some f) span ing = record ing { user = f ing.user span }

  -- What each state does with a complete line.
  request_done : Bool × HttpIngest U → HttpIngest U
  request_done (true, ing) = record ing { line = []; state = header_line }
  request_done (false, ing) = fail ing

  size_done : ℕ → HttpIngest U → HttpIngest U
  size_done size ing =
      if size == size_max
      then fail ing
      else if size == 0
      then record ing { state = trailer }
      else record ing { chunk_remaining = size; state = chunk_data }

  line_done_in : State → HttpIngest U → HttpIngest U
  unfolding request_done size_done
  line_done_in request_line ing = request_done (parse_request_line ing)
  line_done_in header_line ing =
      if length ing.line == 0
      then record ing { line = []; state = chunk_size }
      else reset_line (parse_header_line ing)
  line_done_in chunk_size ing = size_done (parse_chunk_size (c_str ing.line)) (reset_line ing)
  line_done_in chunk_crlf ing =
      if length ing.line == 0 then record ing { line = []; state = chunk_size } else fail ing
  line_done_in trailer ing = record ing { line = []; complete = true; state = done }
  line_done_in _ ing = ing

  pub line_done : HttpIngest U → HttpIngest U
  line_done ing = line_done_in ing.state ing

  -- An error returns at once, anything else goes round again.
  pub round_on : HttpIngest U → Bytes → Round U
  round_on ing rest = if is_error ing.state then failure ing else again ing rest

  pub line_round_of : LineResult → HttpIngest U → Round U
  line_round_of (partial line) ing = wait (record ing { line = line })
  line_round_of (too_long line) ing = failure (fail (record ing { line = line }))
  line_round_of (whole line rest) ing = round_on (line_done (record ing { line = line })) rest

  pub line_round : HttpIngest U → Bytes → Round U
  line_round ing buf = line_round_of (accumulate_line ing.line buf) ing

  -- The state ST_CHUNK_DATA: a span of at most what is left of the chunk.
  pub data_take : HttpIngest U → Bytes → ℕ
  data_take ing buf =
      if ltb (length buf) ing.chunk_remaining then length buf else ing.chunk_remaining

  pub data_done : HttpIngest U → Bytes → HttpIngest U
  data_done ing span =
      let left = ing.chunk_remaining - length span in
      record (if ltb 0 (length span) then call_payload cb.on_payload span ing else ing) {
        chunk_remaining = left;
        state = if left == 0 then chunk_crlf else ing.state;
      }

  pub data_round : HttpIngest U → Bytes → Round U
  data_round ing buf = let n = data_take ing buf in again (data_done ing (take n buf)) (drop n buf)

  -- The switch of the loop; the last two clauses are its default.
  round_in : State → HttpIngest U → Bytes → Round U
  round_in request_line ing buf = line_round ing buf
  round_in header_line ing buf = line_round ing buf
  round_in chunk_size ing buf = line_round ing buf
  round_in chunk_data ing buf = data_round ing buf
  round_in chunk_crlf ing buf = line_round ing buf
  round_in trailer ing buf = line_round ing buf
  round_in done ing buf = failure (fail ing)
  round_in error ing buf = failure (fail ing)

  -- How the loop goes on behind a round, with `loop` for the rounds to come.
  pub next_round :
      (HttpIngest U → Bytes → Option (Option Bytes × HttpIngest U))
      → Round U
      → Option (Option Bytes × HttpIngest U)
  next_round loop (again ing rest) = loop ing rest
  next_round loop (wait ing) = some (some [], ing)
  next_round loop (failure ing) = some (none, ing)

  -- The loop on the input that is left: `none` outside means that the fuel ran out; inside, `none` is
  -- the return value -1, and `some rest` a return with `rest` not consumed.
  pub feed_loop : ℕ → HttpIngest U → Bytes → Option (Option Bytes × HttpIngest U)
  feed_loop fuel ing [] = some (some [], ing)
  feed_loop zero ing (c ∷ buf) = none
  feed_loop (suc fuel) ing (c ∷ buf) = elim (is_done ing.state) [
    | true ↦ some (some (c ∷ buf), ing)
    | false ↦ next_round (feed_loop fuel) (round_in ing.state ing (c ∷ buf))
  ]

  pub http_ingest_feed : ℕ → HttpIngest U → Bytes → Option (Option Bytes × HttpIngest U)
  http_ingest_feed fuel ing buf =
      let out = feed_loop fuel ing buf in if is_error ing.state then some (none, ing) else out
