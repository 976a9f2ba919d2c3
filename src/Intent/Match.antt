-- ===== src/Intent/Match.antt =====
-- `all_keywords_present` and `intent_match` of server/src/intent.c: which entry of the table is found.
use esp32s3_inmp.Base.{
  ◌≡◌, refl, sym, ◌∙◌, ap, ◌↔◌, inl, inr, Bool, true, false, ◌&&◌, List, Bytes, [], ◌∷◌, ◌++◌,
  Option, none, some, if◌then◌else◌, ◌==◌, arith, Bool-cases,
}
use esp32s3_inmp.Intent.{
  contains_ci, keyword_present, keywords_from, all_keywords_present, IntentEntry, entry_matches,
  match_in, intent_match,
}
use esp32s3_inmp.Intent.Search.{Occurs, contains_ci_iff}

-- The texts between the spaces, the first of them continued from `word`.
pub words_from : Bytes → Bytes → List Bytes
words_from word [] = word ∷ []
words_from word (c ∷ s) =
    let next = words_from [] s in
    let more = words_from (word ++ (c ∷ [])) s in if c == b' ' then word ∷ next else more

abbrev pub AllOccur : Bytes → List Bytes → Type 0
AllOccur transcript [] = Unit {0}
AllOccur transcript (w ∷ ws) = Occurs transcript w × AllOccur transcript ws

keyword_present_iff :
    (transcript word : Bytes) → (keyword_present transcript word ≡ true) ↔ Occurs transcript word
unfolding keyword_present contains_ci
keyword_present_iff transcript [] = contains_ci_iff transcript []
keyword_present_iff transcript (c ∷ w) =
    let k = contains_ci_iff transcript (c ∷ w) in
    let word : keyword_present transcript (c ∷ w) ≡ contains_ci transcript (c ∷ w) = ground arith in
    (λ e. k.0 (sym word ∙ e), λ o. word ∙ k.1 o)

and_iff : (a b : Bool) → ((a && b) ≡ true) ↔ ((a ≡ true) × (b ≡ true))
and_iff a b = ground arith

keywords_from_iff :
    (transcript word s : Bytes)
    → (keywords_from transcript word s ≡ true) ↔ AllOccur transcript (words_from word s)
unfolding keywords_from words_from
keywords_from_iff transcript word [] =
    let k = keyword_present_iff transcript word in (λ e. (k.0 e, tt), λ o. k.1 o.0)
keywords_from_iff transcript word (c ∷ s) = elim (Bool-cases (c == b' ')) [
  | inl space ↦
      let k = keyword_present_iff transcript word in
      let r = keywords_from_iff transcript [] s in
      let a = and_iff (keyword_present transcript word) (keywords_from transcript [] s) in
      rw space (λ e. (k.0 (a.0 e).0, r.0 (a.0 e).1), λ o. a.1 (k.1 o.0, r.1 o.1))
  | inr letter ↦ rw letter (keywords_from_iff transcript (word ++ (c ∷ [])) s)
]

-- An intent's keywords are accepted exactly when each of the texts between their spaces occurs in the
-- transcript, letter case aside.
pub all_keywords_present_iff :
    (transcript keywords : Bytes)
    → (all_keywords_present transcript keywords ≡ true)
      ↔ AllOccur transcript (words_from [] keywords)
unfolding all_keywords_present
all_keywords_present_iff transcript keywords = keywords_from_iff transcript [] keywords

abbrev pub NoneMatch : Bytes → List IntentEntry → Type 0
NoneMatch transcript [] = Unit {0}
NoneMatch transcript (e ∷ es) =
    (entry_matches transcript e.keywords ≡ false) × NoneMatch transcript es

-- The entry at which the table is cut: it matches, and no entry in front of it does.
pub record First (entries : List IntentEntry) (transcript : Bytes) (e : IntentEntry) : Type 0 where
  pub before : List IntentEntry
  pub after : List IntentEntry
  pub place : entries ≡ before ++ (e ∷ after)
  pub matches : entry_matches transcript e.keywords ≡ true
  pub earlier : NoneMatch transcript before

abbrev pub Found : List IntentEntry → Bytes → Option IntentEntry → Type 0
Found entries transcript (some e) = First entries transcript e
Found entries transcript none = NoneMatch transcript entries

Found-cons :
    (r : Option IntentEntry) (e : IntentEntry) (es : List IntentEntry) (transcript : Bytes)
    → entry_matches transcript e.keywords ≡ false
    → Found es transcript r
    → Found (e ∷ es) transcript r
Found-cons none e es transcript missed f = (missed, f)
Found-cons (some x) e es transcript missed f = record {
  before = e ∷ f.before;
  after = f.after;
  place = ap (λ t. e ∷ t) f.place;
  matches = f.matches;
  earlier = (missed, f.earlier);
}

-- `intent_match` finds the first entry of the table whose keywords match, and INTENT_NONE only if no
-- entry matches.
pub intent_match_first :
    (entries : List IntentEntry) (transcript : Bytes)
    → Found entries transcript (intent_match (some entries) (some transcript))
unfolding intent_match match_in
intent_match_first [] transcript = tt
intent_match_first (e ∷ es) transcript = elim (Bool-cases (entry_matches transcript e.keywords)) [
  | inl yes_ ↦
      rw yes_ (record { before = []; after = es; place = refl; matches = yes_; earlier = tt })
  | inr no_ ↦ rw no_ (Found-cons _ e es transcript no_ (intent_match_first es transcript))
]
