-- ===== src/Intent/Search.antt =====
-- `contains_ci` of server/src/intent.c, against the places where a needle can stand.
use esp32s3_inmp.Base.{
  ℕ, ◌≡◌, ◌≢◌, refl, ap, ◌↔◌, inl, inr, true, false, Bytes, [], ◌∷◌, ◌++◌, ◌==◌, ==→eq, arith,
  Bool-cases,
}
use esp32s3_inmp.HttpIngest.Line.{to_lower}
use esp32s3_inmp.Intent.{prefix_ci, search_ci, contains_ci}

-- Two texts that differ in the case of letters only.
pub data SameText : Bytes → Bytes → Type 0 where
  same_nil : SameText [] []
  same_cons :
      {a b : ℕ} {s t : Bytes} → to_lower a ≡ to_lower b → SameText s t → SameText (a ∷ s) (b ∷ t)

-- Somewhere in the haystack stands the needle.
pub record Occurs (haystack needle : Bytes) : Type 0 where
  pub before : Bytes
  pub found : Bytes
  pub after : Bytes
  pub place : haystack ≡ before ++ (found ++ after)
  pub same : SameText found needle

prefix_sound :
    (h needle : Bytes)
    → prefix_ci h needle ≡ true
    → (m : Bytes) × (after : Bytes) × (h ≡ m ++ after) × SameText m needle
unfolding prefix_ci
prefix_sound h [] e = ([], h, refl, same_nil)
prefix_sound [] (n ∷ needle) e = cc
prefix_sound (c ∷ h) (n ∷ needle) e = elim (Bool-cases (to_lower c == to_lower n)) [
  | inl same ↦
      let (m, after, p, s) = prefix_sound h needle (rw same at e) in
      (c ∷ m, after, ap (λ t. c ∷ t) p, same_cons (==→eq _ _ same) s)
  | inr other ↦ absurd (false-true (rw other at e))
]
  where
    false-true : false ≡ true → ⊥
    false-true e = cc

prefix_complete :
    (m needle after : Bytes) → SameText m needle → prefix_ci (m ++ after) needle ≡ true
unfolding prefix_ci
prefix_complete _ _ after same_nil = refl
prefix_complete _ _ after (same_cons {a = a} {b = b} {s = s} {t = t} e same) =
    ground (arith, e, prefix_complete s t after same)

search_sound : (h needle : Bytes) → search_ci h needle ≡ true → Occurs h needle
unfolding search_ci
search_sound [] needle e = absurd (no e)
  where
    no : false ≡ true → ⊥
    no e = cc
search_sound (c ∷ h) needle e = elim (Bool-cases (prefix_ci (c ∷ h) needle)) [
  | inl here ↦
      let (m, after, p, s) = prefix_sound (c ∷ h) needle here in
      record { before = []; found = m; after = after; place = p; same = s }
  | inr elsewhere ↦
      let o = search_sound h needle (rw elsewhere at e) in
      record {
        before = c ∷ o.before;
        found = o.found;
        after = o.after;
        place = ap (λ t. c ∷ t) o.place;
        same = o.same;
      }
]

search_complete :
    (before m needle after : Bytes)
    → needle ≢ []
    → SameText m needle
    → search_ci (before ++ (m ++ after)) needle ≡ true
unfolding search_ci
search_complete [] _ _ after ne same_nil = absurd (ne refl)
search_complete [] _ _ after ne (same_cons {a = a} {b = b} {s = s} {t = t} e same) =
    ground (arith, prefix_complete (a ∷ s) (b ∷ t) after (same_cons e same))
search_complete (c ∷ before) m needle after ne same =
    ground (arith, search_complete before m needle after ne same)

-- `contains_ci` answers 1 exactly when the needle occurs in the haystack, letter case aside. The empty
-- needle occurs everywhere.
pub contains_ci_iff :
    (haystack needle : Bytes) → (contains_ci haystack needle ≡ true) ↔ Occurs haystack needle
unfolding contains_ci
contains_ci_iff haystack [] = (
  λ e. record { before = []; found = []; after = haystack; place = refl; same = same_nil },
  λ o. refl,
)
contains_ci_iff haystack (n ∷ needle) = (
  λ e. search_sound haystack (n ∷ needle) (ground arith),
  λ o. ground (
    arith,
    ap (λ h. search_ci h (n ∷ needle)) o.place,
    search_complete o.before o.found (n ∷ needle) o.after (λ e. cc) o.same,
  ),
)
