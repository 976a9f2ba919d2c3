-- ===== src/StreamProto/Hex.antt =====
-- How many hex digits a number has, and how many `write_hex` writes.
use esp32s3_inmp.Base.{ℕ, zero, suc, ◌+◌, ◌/◌, ◌%◌, ◌≡◌, Bytes, [], ◌∷◌, arith, length}
use esp32s3_inmp.StreamProto.{hex_digits, hex_digit, write_hex, write_hex_loop}

length-write_hex_loop : (d n : ℕ) (out : Bytes) → length (write_hex_loop d n out) ≡ d + length out
unfolding write_hex_loop
length-write_hex_loop zero n out = omega arith
length-write_hex_loop (suc d) n out =
    omega (arith, length-write_hex_loop d (n / 16) (hex_digit (n % 16) ∷ out))

-- `write_hex` writes as many bytes as `hex_digits` counts.
pub length-write_hex : (n : ℕ) → length (write_hex n) ≡ hex_digits n
unfolding write_hex
length-write_hex n = omega (arith, length-write_hex_loop (hex_digits n) n [])
