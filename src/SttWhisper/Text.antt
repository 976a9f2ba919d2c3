-- ===== src/SttWhisper/Text.antt =====
-- The text of an utterance in stt_whisper.c.
use esp32s3_inmp.Base.{
  true, ℕ, zero, suc, ◌+◌, ◌-◌, ◌≤◌, ◌<◌, ◌≡◌, refl, sym, ap, ◌∙◌, List, Bytes, [], ◌∷◌, ◌++◌,
  Option, none, some, leb, length, length-append, length-take, take, take_all, append-nil,
  append_assoc, arith, Bool-cases, inl, inr,
}
use esp32s3_inmp.SttWhisper.{transcript_max, join_segments}

-- The segments that are not NULL, one behind the other.
abbrev pub all_text : List (Option Bytes) → Bytes
all_text [] = []
all_text (none ∷ segs) = all_text segs
all_text (some seg ∷ segs) = seg ++ all_text segs

take-append_le : (n : ℕ) (xs ys : Bytes) → n ≤ length xs → take n (xs ++ ys) ≡ take n xs
take-append_le zero xs ys h = refl
take-append_le (suc n) [] ys h = absurd (omega arith)
take-append_le (suc n) (x ∷ xs) ys h = ap (λ t. x ∷ t) (take-append_le n xs ys (omega arith))

take-append_ge :
    (n : ℕ) (xs ys : Bytes) → length xs ≤ n → take n (xs ++ ys) ≡ xs ++ take (n - length xs) ys
take-append_ge n [] ys h = ap (λ k. take k ys) {x = n} {y = n - 0} (omega arith)
take-append_ge zero (x ∷ xs) ys h = absurd (omega arith)
take-append_ge (suc n) (x ∷ xs) ys h =
    ap (λ t. x ∷ t) (take-append_ge n xs ys (omega arith))
    ∙ ap (λ k. x ∷ (xs ++ take k ys)) {x = n - length xs} {y = suc n - suc (length xs)}
        (omega arith)

-- A segment that does not fit is cut, and fills the buffer.
cut_segment :
    (n : ℕ) (joined seg rest : Bytes)
    → length joined ≤ n
    → n ≤ length joined + length seg
    → joined ++ take (n - length joined) seg ≡ take n (joined ++ (seg ++ rest))
cut_segment n joined seg rest le ge = sym (
    take-append_ge n joined (seg ++ rest) le
    ∙ ap (λ t. joined ++ t) (take-append_le (n - length joined) seg rest (omega arith)))

-- A buffer that is exactly full takes no more.
full_buffer : (n : ℕ) (big rest : Bytes) → length big ≡ n → big ≡ take n (big ++ rest)
full_buffer n big rest e =
    sym (take-append_le n big rest (omega arith) ∙ take_all n big (omega arith))

-- The text of an utterance is the texts of its segments, in order and with those that are NULL left out, cut
-- to the 255 bytes that fit the buffer in front of the NUL.
pub join_segments-take :
    (joined : Bytes) (segs : List (Option Bytes))
    → length joined < transcript_max
    → join_segments joined segs ≡ take (transcript_max - 1) (joined ++ all_text segs)
unfolding join_segments
join_segments-take joined [] h =
    sym (take_all 255 (joined ++ []) (omega (arith, length-append joined [])) ∙ append-nil joined)
join_segments-take joined (none ∷ segs) h = join_segments-take joined segs h
join_segments-take joined (some seg ∷ segs) h =
    elim (Bool-cases (leb transcript_max (length joined + length seg))) [
      | inl e ↦
          let room = 255 - length joined in
          let filled : leb 255 (length (joined ++ take room seg)) ≡ true =
            ground (arith, length-append joined (take room seg), length-take room seg) in
          rw (e, filled) (cut_segment 255 joined seg (all_text segs) (omega arith) (ground arith))
      | inr e ↦
          let whole : take (length seg) seg ≡ seg = take_all (length seg) seg (omega arith) in
          let short : length (joined ++ seg) < transcript_max =
            ground (arith, length-append joined seg) in
          elim (Bool-cases (leb 255 (length (joined ++ seg)))) [
            | inl f ↦
                rw (e, whole, f, sym (append_assoc joined seg (all_text segs)))
                  (full_buffer 255 (joined ++ seg) (all_text segs) (ground arith))
            | inr f ↦
                rw (e, whole, f)
                  (join_segments-take (joined ++ seg) segs short
                    ∙ ap (λ t. take 255 t) (append_assoc joined seg (all_text segs)))
          ]
    ]
