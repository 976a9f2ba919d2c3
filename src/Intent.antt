-- ===== src/Intent.antt =====
-- server/src/intent.c: keyword matching. C strings are their bytes, without the NUL; a NULL pointer is
-- `none`. `tolower` is that of the C locale.
pub mod Search
pub mod Match
use esp32s3_inmp.Base.{
  ℕ, ◌+◌, Bool, true, false, ◌&&◌, ◌||◌, List, Bytes, [], ◌∷◌, ◌++◌, Option, none, some,
  if◌then◌else◌, ◌==◌, length, arith, ◌≡◌,
}
use esp32s3_inmp.HttpIngest.Line.{to_lower}

-- The inner loop of `contains_ci` at one place: the needle is a prefix of what stands there.
unfoldable pub prefix_ci : Bytes → Bytes → Bool
unfolding to_lower
prefix_ci h [] = true
prefix_ci [] (n ∷ needle) = false
prefix_ci (c ∷ h) (n ∷ needle) = to_lower c == to_lower n && prefix_ci h needle

-- The loop over the places of the haystack.
unfoldable pub search_ci : Bytes → Bytes → Bool
unfolding prefix_ci
search_ci [] needle = false
search_ci (c ∷ h) needle = prefix_ci (c ∷ h) needle || search_ci h needle

unfoldable pub contains_ci : Bytes → Bytes → Bool
unfolding search_ci
contains_ci haystack needle = if length needle == 0 then true else search_ci haystack needle

-- One keyword of `all_keywords_present`; an empty one, between two spaces, is skipped.
unfoldable pub keyword_present : Bytes → Bytes → Bool
unfolding contains_ci
keyword_present transcript word = if length word == 0 then true else contains_ci transcript word

-- The nested loops of `all_keywords_present` advance `p` one character at a time; `word` is `[start, p)`.
-- At a space, or at the end, the keyword is complete; the first that is missing returns 0.
unfoldable pub keywords_from : Bytes → Bytes → Bytes → Bool
unfolding keyword_present
keywords_from transcript word [] = keyword_present transcript word
keywords_from transcript word (c ∷ rest) =
    let next = keywords_from transcript [] rest in
    let more = keywords_from transcript (word ++ (c ∷ [])) rest in
    if c == b' ' then keyword_present transcript word && next else more

unfoldable pub all_keywords_present : Bytes → Bytes → Bool
unfolding keywords_from
all_keywords_present transcript keywords = keywords_from transcript [] keywords

-- `id` is a plain number: the caller's ids are not negative.
pub record IntentEntry : Type 0 where
  pub id : ℕ
  pub name : Bytes
  pub keywords : Option Bytes

abbrev pub IntentTable : Type 0
IntentTable = List IntentEntry

unfoldable pub entry_matches : Bytes → Option Bytes → Bool
entry_matches transcript none = false
entry_matches transcript (some keywords) = all_keywords_present transcript keywords

-- The first entry that matches, `none` for INTENT_NONE; its name is what goes through `out_name`.
unfoldable pub match_in : IntentTable → Bytes → Option IntentEntry
match_in [] transcript = none
match_in (e ∷ entries) transcript =
    let rest = match_in entries transcript in
    if entry_matches transcript e.keywords then some e else rest

unfoldable pub intent_match : Option IntentTable → Option Bytes → Option IntentEntry
intent_match (some table) (some transcript) = match_in table transcript
intent_match _ _ = none
