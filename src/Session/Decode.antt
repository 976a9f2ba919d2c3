-- ===== src/Session/Decode.antt =====
-- Decoding: how a payload that arrives in two spans compares with one that arrives whole.
use esp32s3_inmp.Base.{
  ℕ, zero, suc, ◌+◌, ◌-◌, ◌*◌, ◌/◌, ◌%◌, ◌^◌, ◌≤◌, ◌<◌, ◌≡◌, refl, sym, ap, ap₂, ◌∙◌, append_assoc,
  drop, drop-append_length, List, Bytes, [], ◌∷◌, ◌++◌, arith, length, length-append,
}
use esp32s3_inmp.Base.{ℤ, pos, negsuc}
use esp32s3_inmp.Session.{sample_of, decode_le16}

-- The samples that one span yields.
abbrev pub samples : Bytes → List ℤ
samples bytes = decode_le16 (length bytes / 2) bytes

abbrev pub IsByte : ℕ → Type 0
IsByte b = b < 256

abbrev pub AllBytes : Bytes → Type 0
AllBytes [] = Unit {0}
AllBytes (b ∷ bs) = IsByte b × AllBytes bs

-- An `int16_t` as the two bytes that the client sends, low byte first.
unfoldable pub bytes_of : ℤ → Bytes
bytes_of (pos n) = (n % 256) ∷ (n / 256) ∷ []
bytes_of (negsuc n) = ((2 ^ 16 - 1 - n) % 256) ∷ ((2 ^ 16 - 1 - n) / 256) ∷ []

-- The range of `int16_t`, exactly.
abbrev pub IsInt16 : ℤ → Type 0
IsInt16 (pos n) = n < 2 ^ 15
IsInt16 (negsuc n) = n < 2 ^ 15

abbrev pub AllInt16 : List ℤ → Type 0
AllInt16 [] = Unit {0}
AllInt16 (s ∷ pcm) = IsInt16 s × AllInt16 pcm

unfoldable pub encode : List ℤ → Bytes
encode [] = []
encode (s ∷ pcm) = bytes_of s ++ encode pcm

decode_step :
    (s : ℤ) (count : ℕ) (rest : Bytes)
    → IsInt16 s
    → decode_le16 (suc count) (bytes_of s ++ rest) ≡ s ∷ decode_le16 count rest
unfolding decode_le16 bytes_of
decode_step (pos n) count rest h = ground arith
decode_step (negsuc n) count rest h = ground arith

-- Samples sent as little-endian bytes are decoded to the same samples, also if bytes follow.
pub decode-encode :
    (pcm : List ℤ) (rest : Bytes)
    → AllInt16 pcm
    → decode_le16 (length pcm) (encode pcm ++ rest) ≡ pcm
unfolding encode decode_le16
decode-encode [] rest h = refl
decode-encode (s ∷ pcm) rest (h, hs) =
    ap (decode_le16 (suc (length pcm))) (append_assoc (bytes_of s) (encode pcm) rest)
    ∙ (decode_step s (length pcm) (encode pcm ++ rest) h
        ∙ ap (λ t. s ∷ t) (decode-encode pcm rest hs))

pub length-decode :
    (n : ℕ) (bytes : Bytes) → 2 * n ≤ length bytes → length (decode_le16 n bytes) ≡ n
unfolding decode_le16
length-decode zero bytes h = refl
length-decode (suc n) [] h = absurd (omega arith)
length-decode (suc n) (a ∷ []) h = absurd (omega arith)
length-decode (suc n) (a ∷ b ∷ bytes) h = ap suc (length-decode n bytes (omega arith))

two_more : (n : ℕ) (a b : ℕ) (bytes : Bytes) → drop (2 * suc n) (a ∷ b ∷ bytes) ≡ drop (2 * n) bytes
two_more n a b bytes =
    ap (λ k. drop k (a ∷ b ∷ bytes)) {x = 2 * suc n} {y = suc (suc (2 * n))} (omega arith)

-- Decoding in two steps, the second from where the first stopped.
pub decode-add :
    (n m : ℕ) (bytes : Bytes)
    → 2 * n + 2 * m ≤ length bytes
    → decode_le16 (n + m) bytes ≡ decode_le16 n bytes ++ decode_le16 m (drop (2 * n) bytes)
unfolding decode_le16
decode-add zero m bytes h =
    ap (λ k. decode_le16 k bytes) (omega arith)
    ∙ ap (λ k. decode_le16 m (drop k bytes)) {x = 0} {y = 2 * 0} refl
decode-add (suc n) m [] h = absurd (omega arith)
decode-add (suc n) m (a ∷ []) h = absurd (omega arith)
decode-add (suc n) m (a ∷ b ∷ bytes) h =
    ap (λ k. decode_le16 k (a ∷ b ∷ bytes)) {x = suc n + m} {y = suc (n + m)} (omega arith)
    ∙ (ap (λ t. sample_of a b ∷ t) (decode-add n m bytes (omega arith))
        ∙ ap (λ d. sample_of a b ∷ (decode_le16 n bytes ++ decode_le16 m d))
            (sym (two_more n a b bytes)))

-- Only the first `2 * n` bytes are read.
decode-append :
    (n : ℕ) (xs ys : Bytes) → 2 * n ≤ length xs → decode_le16 n (xs ++ ys) ≡ decode_le16 n xs
unfolding decode_le16
decode-append zero xs ys h = refl
decode-append (suc n) [] ys h = absurd (omega arith)
decode-append (suc n) (a ∷ []) ys h = absurd (omega arith)
decode-append (suc n) (a ∷ b ∷ xs) ys h =
    ap (λ t. sample_of a b ∷ t) (decode-append n xs ys (omega arith))

-- A span with a whole number of samples is transparent: what follows it is decoded as if both had
-- arrived in one piece.
pub even_span_exact :
    (xs ys : Bytes) → length xs % 2 ≡ 0 → samples (xs ++ ys) ≡ samples xs ++ samples ys
even_span_exact xs ys even =
    let n : ℕ = length xs / 2 in
    let m : ℕ = length ys / 2 in
    ap (λ k. decode_le16 k (xs ++ ys)) {x = length (xs ++ ys) / 2} {y = n + m}
      (omega (arith, length-append xs ys))
    ∙ (decode-add n m (xs ++ ys) (omega (arith, length-append xs ys))
        ∙ ap₂ ◌++◌ (decode-append n xs ys (omega arith)) (
            ap (decode_le16 m) (
              ap (λ k. drop k (xs ++ ys)) {x = 2 * n} {y = length xs} (omega arith)
              ∙ drop-append_length xs ys)))
