-- ===== src/RoundTrip/Hex.antt =====
-- The hex digits of a chunk size: `write_hex` of the client against `parse_chunk_size` of the server.
use native.Mathlib.Nat.{pow-suc}
use esp32s3_inmp.Base.{
  ℕ, zero, suc, if◌then◌else◌, ◌/◌, ◌%◌, ◌^◌, ◌≤◌, ◌<◌, ◌≡◌, refl, ◌∙◌, ap, Bool, true, false, ◌&&◌,
  not, Bytes, [], ◌∷◌, none, some, arith, ◌==◌, Bool-cases, inl, inr, ==→eq,
}
use esp32s3_inmp.StreamProto.{hex_digits, hex_digits_loop, hex_digit, write_hex, write_hex_loop}
use esp32s3_inmp.HttpIngest.Line.{
  IsPlain, AllPlain, hex_value, shift_in, parse_chunk_size_from, parse_chunk_size,
}

digit_ok : ℕ → Bool
digit_ok k =
    not (hex_digit k == 0)
    && not (hex_digit k == b'\n')
    && elim (hex_value (hex_digit k)) [ some d ↦ d == k | none ↦ false ]

-- A test that every digit below `bound` passes.
every_digit : (ℕ → Bool) → ℕ → Bool
every_digit test zero = true
every_digit test (suc bound) =
    let rest = every_digit test bound in if test bound then rest else false

every_digit_at :
    (test : ℕ → Bool) (bound k : ℕ) → k < bound → every_digit test bound ≡ true → test k ≡ true
unfolding every_digit
every_digit_at test zero k small passed = absurd (omega arith)
every_digit_at test (suc bound) k small passed = ground (arith, every_digit_at test bound k)

digit_table : every_digit digit_ok 16 ≡ true
unfolding every_digit digit_ok hex_digit hex_value
digit_table = refl

hex_value-hex_digit : (k : ℕ) → k < 16 → hex_value (hex_digit k) ≡ some k
unfolding digit_ok
hex_value-hex_digit k h = ground (arith, every_digit_at digit_ok 16 k h digit_table)

hex_digit-IsPlain : (k : ℕ) → k < 16 → IsPlain (hex_digit k)
unfolding digit_ok
hex_digit-IsPlain k h = ground (arith, every_digit_at digit_ok 16 k h digit_table)

-- Reading the last digit behind the digits before it gives the number.
parse_last :
    (seen : Bool) (n : ℕ) (out : Bytes)
    → n < 2 ^ 64
    → parse_chunk_size_from seen (n / 16) (hex_digit (n % 16) ∷ out)
      ≡ parse_chunk_size_from true n out
unfolding parse_chunk_size_from
parse_last seen n out h =
    let same : shift_in (n / 16) (n % 16) ≡ n = omega arith in
    rw (hex_value-hex_digit (n % 16) (omega arith), parse_chunk_size_from)
      (ap (λ v. parse_chunk_size_from true v out) same)

parse_loop :
    (d : ℕ) (seen : Bool) (n : ℕ) (out : Bytes)
    → n < 2 ^ 64
    → n < 16 ^ suc d
    → parse_chunk_size_from seen 0 (write_hex_loop (suc d) n out) ≡ parse_chunk_size_from true n out
unfolding write_hex_loop
parse_loop zero seen n out h lt =
    let high : 0 ≡ n / 16 = omega (arith, pow-suc 16 0) in
    ap (λ v. parse_chunk_size_from seen v (hex_digit (n % 16) ∷ out)) high ∙ parse_last seen n out h
parse_loop (suc d) seen n out h lt =
    parse_loop d seen (n / 16) (hex_digit (n % 16) ∷ out) (omega arith)
      (omega (arith, pow-suc 16 (suc d)))
    ∙ parse_last true n out h

-- The digits counted are enough.
hex_digits_loop-enough :
    (fuel n : ℕ)
    → n < 16 ^ suc fuel
    → (d : ℕ) × (hex_digits_loop (suc fuel) n ≡ suc d) × (n < 16 ^ suc d) × (d ≤ fuel)
unfolding hex_digits_loop
hex_digits_loop-enough zero n h =
    (0, ground (arith, pow-suc 16 0), omega (arith, pow-suc 16 0), omega arith)
hex_digits_loop-enough (suc fuel) n h = elim (Bool-cases (n / 16 == 0)) [
  | inl small ↦ (0, rw small, omega (arith, pow-suc 16 0, ==→eq (n / 16) 0 small), omega arith)
  | inr large ↦
      let (d, e, lt, le) =
        hex_digits_loop-enough fuel (n / 16) (omega (arith, pow-suc 16 (suc fuel))) in
      (suc d, rw large (ap suc e), omega (arith, pow-suc 16 (suc d)), omega arith)
]

-- The size that the client writes in front of a chunk is the size that the server reads, for every
-- number below 2^64.
pub parse-write_hex : (n : ℕ) → n < 2 ^ 64 → parse_chunk_size (write_hex n) ≡ n
unfolding parse_chunk_size write_hex hex_digits parse_chunk_size_from
parse-write_hex n h =
    let (d, e, lt, le) = hex_digits_loop-enough 15 n h in rw e (parse_loop d false n [] h lt)

AllPlain-write_hex_loop : (d n : ℕ) (out : Bytes) → AllPlain out → AllPlain (write_hex_loop d n out)
unfolding write_hex_loop
AllPlain-write_hex_loop zero n out p = p
AllPlain-write_hex_loop (suc d) n out p =
    AllPlain-write_hex_loop d (n / 16) (hex_digit (n % 16) ∷ out)
      (hex_digit-IsPlain (n % 16) (omega arith), p)

pub AllPlain-write_hex : (n : ℕ) → AllPlain (write_hex n)
unfolding write_hex
AllPlain-write_hex n = AllPlain-write_hex_loop (hex_digits n) n [] tt

-- A `uint64_t` has at most 16 hex digits, and at least one.
pub hex_digits_bounds : (n : ℕ) → n < 2 ^ 64 → (0 < hex_digits n) × (hex_digits n ≤ 16)
unfolding hex_digits
hex_digits_bounds n h = let (d, e, lt, le) = hex_digits_loop-enough 15 n h in omega (arith, e)
