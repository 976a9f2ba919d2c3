-- ===== src/Wav/Bound.antt =====
-- The loop of `wav_read` over the chunks of a file.
use esp32s3_inmp.Base.{
  ℕ, zero, suc, ◌+◌, ◌≤◌, ◌<◌, ◌≡◌, refl, Bool, Bytes, [], ◌∷◌, Option, none, some, arith, length,
  length-drop, u32, codes, ◌%◌, ◌-◌, ◌*◌, ◌^◌, Bool-cases, inl, inr,
}
use esp32s3_inmp.Wav.{
  Fmt, no_fmt, WavResult, not_riff, no_data, Next, returns, goes_on, read_id, read_u32, read_u16,
  read_fmt, fmt_chunk, on_chunk, same_bytes, chunk_loop, read_riff, wav_read,
}

-- What a chunk leaves is no more than it found.
abbrev Shrinks : Next → Bytes → Type 0
Shrinks (returns r) f = Unit {0}
Shrinks (goes_on fmt f') f = length f' ≤ length f

abbrev Leaves {ℓ} : {A : Type ℓ} → Option (A × Bytes) → Bytes → Type 0
Leaves none f = Unit {0}
Leaves (some (a, f')) f = length f' ≤ length f

read_fmt-Leaves : (f : Bytes) → Leaves (read_fmt f) f
unfolding read_fmt read_u16 read_u32
read_fmt-Leaves f = ground arith

fmt_chunk-Shrinks :
    (o : Option (Fmt × Bytes)) (sz : ℕ) (f : Bytes) → Leaves o f → Shrinks (fmt_chunk o sz) f
unfolding fmt_chunk
fmt_chunk-Shrinks none sz f h = tt
fmt_chunk-Shrinks (some (fmt, f')) sz f h = ground (arith, length-drop (sz - 16) f')

module _ (alloc : ℕ → Bool) where
  on_chunk-Shrinks :
      (fmt : Fmt) (id : Bytes) (sz : ℕ) (f : Bytes) → Shrinks (on_chunk alloc fmt id sz f) f
  unfolding on_chunk
  on_chunk-Shrinks fmt id sz f = elim (Bool-cases (same_bytes id (codes "fmt "))) [
    | inl e ↦ rw e (fmt_chunk-Shrinks (read_fmt f) sz f (read_fmt-Leaves f))
    | inr e ↦ elim (Bool-cases (same_bytes id (codes "data"))) [
      | inl e' ↦ rw (e, e') tt
      | inr e' ↦ rw (e, e') (omega (arith, length-drop (u32 (sz + sz % 2)) f))
    ]
  ]

  next_chunk :
      (o : Next) (f : Bytes) (loop : Fmt → Bytes → Option WavResult)
      → Shrinks o f
      → ((fmt : Fmt) (f' : Bytes) → length f' ≤ length f → (x : WavResult) × (loop fmt f' ≡ some x))
      → (x : WavResult) × ((elim o [ returns r ↦ some r | goes_on fmt f' ↦ loop fmt f' ]) ≡ some x)
  next_chunk (returns r) f loop h ih = (r, refl)
  next_chunk (goes_on fmt f') f loop h ih = ih fmt f' h

  chunk_loop-returns :
      (fuel : ℕ) (fmt : Fmt) (f : Bytes)
      → length f < fuel
      → (x : WavResult) × (chunk_loop alloc fuel fmt f ≡ some x)
  unfolding chunk_loop read_id read_u32
  chunk_loop-returns zero fmt f h = absurd (omega arith)
  chunk_loop-returns (suc fuel) fmt [] h = (no_data, refl)
  chunk_loop-returns (suc fuel) fmt (a ∷ []) h = (no_data, refl)
  chunk_loop-returns (suc fuel) fmt (a ∷ b ∷ []) h = (no_data, refl)
  chunk_loop-returns (suc fuel) fmt (a ∷ b ∷ c ∷ []) h = (no_data, refl)
  chunk_loop-returns (suc fuel) fmt (a ∷ b ∷ c ∷ d ∷ []) h = (no_data, refl)
  chunk_loop-returns (suc fuel) fmt (a ∷ b ∷ c ∷ d ∷ e ∷ []) h = (no_data, refl)
  chunk_loop-returns (suc fuel) fmt (a ∷ b ∷ c ∷ d ∷ e ∷ g ∷ []) h = (no_data, refl)
  chunk_loop-returns (suc fuel) fmt (a ∷ b ∷ c ∷ d ∷ e ∷ g ∷ i ∷ []) h = (no_data, refl)
  chunk_loop-returns (suc fuel) fmt (a ∷ b ∷ c ∷ d ∷ e ∷ g ∷ i ∷ j ∷ f) h =
      next_chunk
        (on_chunk alloc fmt (a ∷ b ∷ c ∷ d ∷ []) (e + 2 ^ 8 * g + 2 ^ 16 * i + 2 ^ 24 * j) f) f
        (chunk_loop alloc fuel)
        (on_chunk-Shrinks fmt (a ∷ b ∷ c ∷ d ∷ []) (e + 2 ^ 8 * g + 2 ^ 16 * i + 2 ^ 24 * j) f)
        (λ fmt' f' le. chunk_loop-returns fuel fmt' f' (omega arith))

  read_riff-Leaves : (f : Bytes) → Leaves (read_riff alloc f) f
  unfolding read_riff read_id read_u32
  read_riff-Leaves f = ground arith

  -- Reading a file ends with one of its results, whatever the file holds: one round of the loop for each
  -- byte of the file is enough, and one more.
  pub wav_read-returns :
      (fuel : ℕ) (f : Bytes)
      → length f < fuel
      → (x : WavResult) × (wav_read alloc fuel (some f) ≡ some x)
  unfolding wav_read
  wav_read-returns fuel f h = go (read_riff alloc f) (read_riff-Leaves f)
    where
      go :
          (o : Option (ℕ × Bytes))
          → Leaves o f
          → (x : WavResult) × ((elim o [
            | none ↦ some not_riff
            | some (n, f') ↦ chunk_loop alloc fuel no_fmt f'
          ])
              ≡ some x)
      go none l = (not_riff, refl)
      go (some (n, f')) l = chunk_loop-returns fuel no_fmt f' (omega arith)
