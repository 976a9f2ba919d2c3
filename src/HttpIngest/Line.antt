-- ===== src/HttpIngest/Line.antt =====
-- What `http_ingest.c` does with the text of one line: the C string functions that it calls, and its
-- own readers of numbers.
use esp32s3_inmp.Base.{
  ℕ, ◌+◌, ◌-◌, ◌*◌, ◌%◌, ◌^◌, ◌≢◌, Bool, true, false, ◌&&◌, ◌||◌, Bytes, [], ◌∷◌, map, Option, none,
  some, if◌then◌else◌, ◌==◌, leb,
}

-- A byte that neither ends a C string nor a line.
abbrev pub IsPlain : ℕ → Type 0
IsPlain c = (c ≢ 0) × (c ≢ b'\n')

abbrev pub AllPlain : Bytes → Type 0
AllPlain [] = Unit {0}
AllPlain (c ∷ s) = IsPlain c × AllPlain s

-- A C string ends at its first NUL.
unfoldable pub c_str : Bytes → Bytes
c_str [] = []
c_str (c ∷ s) = if c == 0 then [] else c ∷ c_str s

-- `strchr`: what stands in front of the first `c`, and what follows it.
unfoldable pub before_too : ℕ → Option (Bytes × Bytes) → Option (Bytes × Bytes)
before_too c none = none
before_too c (some (a, b)) = some (c ∷ a, b)

unfoldable pub split_at : ℕ → Bytes → Option (Bytes × Bytes)
unfolding before_too
split_at c [] = none
split_at c (d ∷ s) = if d == c then some ([], s) else before_too d (split_at c s)

-- The line without a '\r' at its end.
unfoldable pub strip_cr : Bytes → Bytes
strip_cr [] = []
strip_cr (c ∷ []) = if c == b'\r' then [] else c ∷ []
strip_cr (c ∷ d ∷ s) = c ∷ strip_cr (d ∷ s)

-- `while (*value == ' ' || *value == '\t') value++;`
unfoldable pub skip_blanks : Bytes → Bytes
skip_blanks [] = []
skip_blanks (c ∷ s) = if c == b' ' || c == b'\t' then skip_blanks s else c ∷ s

abbrev pub is_digit : ℕ → Bool
is_digit c = leb b'0' c && leb c b'9'

unfoldable pub parse_u32_from : ℕ → Bytes → ℕ
parse_u32_from v [] = v
parse_u32_from v (c ∷ s) =
    let rest = parse_u32_from ((v * 10 + (c - b'0')) % 2 ^ 32) s in if is_digit c then rest else v

unfoldable pub parse_u32 : Bytes → ℕ
unfolding parse_u32_from
parse_u32 s = parse_u32_from 0 s

abbrev pub size_max : ℕ
size_max = 2 ^ 64 - 1

-- The value of a hex digit, `none` for any other character.
unfoldable pub hex_value : ℕ → Option ℕ
hex_value c =
    if leb b'0' c && leb c b'9'
    then some (c - b'0')
    else if leb b'a' c && leb c b'f'
    then some (c - b'a' + 10)
    else if leb b'A' c && leb c b'F'
    then some (c - b'A' + 10)
    else none

-- `v << 4 | d` drops the high bits of a `size_t`; the low four are free for `d`.
abbrev pub shift_in : ℕ → ℕ → ℕ
shift_in v d = v * 16 % 2 ^ 64 + d

-- The loop of `parse_chunk_size`; `seen` is `digits != 0`.
unfoldable pub parse_chunk_size_from : Bool → ℕ → Bytes → ℕ
parse_chunk_size_from seen v [] = if seen then v else size_max
parse_chunk_size_from seen v (c ∷ s) = elim (hex_value c) [
  | some d ↦ parse_chunk_size_from true (shift_in v d) s
  | none ↦ if c == b';' then (if seen then v else size_max) else size_max
]

unfoldable pub parse_chunk_size : Bytes → ℕ
unfolding parse_chunk_size_from
parse_chunk_size s = parse_chunk_size_from false 0 s

-- `tolower` in the C locale.
unfoldable pub to_lower : ℕ → ℕ
to_lower c = if leb b'A' c && leb c b'Z' then c + 32 else c

unfoldable pub same_bytes : Bytes → Bytes → Bool
same_bytes [] [] = true
same_bytes (a ∷ s) (b ∷ t) = a == b && same_bytes s t
same_bytes _ _ = false

-- `strcasecmp(a, b) == 0`
unfoldable pub same_name : Bytes → Bytes → Bool
unfolding to_lower same_bytes
same_name a b = same_bytes (map to_lower a) (map to_lower b)
