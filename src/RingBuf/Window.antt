-- ===== src/RingBuf/Window.antt =====
-- The bytes that a ring buffer holds, and how copies into and out of the storage act on them.
use native.Mathlib.Nat.{mod-eq_of_lt, mod-eq-sub-mod}
use esp32s3_inmp.Base.{
  ℕ, zero, suc, ◌+◌, ◌-◌, ◌%◌, ◌^◌, ◌≤◌, ◌<◌, ◌≡◌, refl, ap, Bytes, [], ◌∷◌, arith, ltb,
  if◌then◌else◌, length, get_or, take, drop, get_or-take, get_or-drop, get_or-blit, length-take,
  length-drop, length-blit, Bool-cases, inl, inr, ltb→lt, ltb→le, ◌∙◌,
}
use esp32s3_inmp.RingBuf.{RingBuf, memcpy, first_part, rb_put}

-- The storage has `cap` bytes, no more than an object can have, and the indices agree.
pub record IsValid (rb : RingBuf) : Type 0 where
  pub storage : length rb.buf ≡ rb.cap
  pub some_room : 0 < rb.cap
  pub small : rb.cap ≤ 2 ^ 31
  pub head_in : rb.head < rb.cap
  pub count_in : rb.count ≤ rb.cap
  pub tail_at : rb.tail ≡ (rb.head + rb.count) % rb.cap

-- An index below twice the capacity, brought back into the storage.
abbrev pub wrap : ℕ → ℕ → ℕ
wrap cap i = if ltb i cap then i else i - cap

pub wrap-mod : (cap i : ℕ) → i < cap + cap → i % cap ≡ wrap cap i
wrap-mod cap i h = elim (Bool-cases (ltb i cap)) [
  | inl lt ↦ rw lt (mod-eq_of_lt (ltb→lt i cap lt))
  | inr ge ↦ rw ge (
      omega (
        arith,
        ltb→le i cap ge,
        mod-eq-sub-mod {n = i} {m = cap} (ltb→le i cap ge),
        mod-eq_of_lt {n = i - cap} {m = cap} (omega (arith, ltb→le i cap ge)),
      ))
]

-- The `n` bytes from index `h` on, going round at `cap`.
unfoldable pub window : Bytes → ℕ → ℕ → ℕ → Bytes
window buf cap h zero = []
window buf cap h (suc n) = get_or buf h 0 ∷ window buf cap (wrap cap (suc h)) n

-- The bytes held, oldest first.
unfoldable pub contents : RingBuf → Bytes
contents rb = window rb.buf rb.cap rb.head rb.count

pub length-window : (buf : Bytes) (cap h n : ℕ) → length (window buf cap h n) ≡ n
unfolding window
length-window buf cap h zero = refl
length-window buf cap h (suc n) = ap suc (length-window buf cap (wrap cap (suc h)) n)

pub get_or-window :
    (buf : Bytes) (cap h n i : ℕ)
    → h < cap
    → n ≤ cap
    → i < n
    → get_or (window buf cap h n) i 0 ≡ get_or buf (wrap cap (h + i)) 0
unfolding window
get_or-window buf cap h zero i hh hn lt = absurd (omega arith)
get_or-window buf cap h (suc n) zero hh hn lt = ap (λ k. get_or buf k 0) (ground arith)
get_or-window buf cap h (suc n) (suc i) hh hn lt =
    get_or-window buf cap (wrap cap (suc h)) n i (ground arith) (omega arith) (omega arith)
    ∙ ap (λ k. get_or buf k 0) (ground arith)

pub length-contents : (rb : RingBuf) → length (contents rb) ≡ rb.count
unfolding contents
length-contents rb = length-window rb.buf rb.cap rb.head rb.count

-- A `memcpy` byte by byte.
pub get_or-memcpy :
    (dst : Bytes) (off : ℕ) (src : Bytes) (n j : ℕ)
    → n ≤ length src
    → off + n ≤ length dst
    → get_or (memcpy dst off src n) j 0 ≡ (
        if ltb j off
        then get_or dst j 0
        else if ltb j (off + n)
        then get_or src (j - off) 0
        else get_or dst j 0)
get_or-memcpy dst off src n j hs hd =
    let e : length (take n src) ≡ n = omega (arith, length-take n src) in
    ground (
      arith,
      e,
      get_or-blit 0 dst off (take n src) j (omega (arith, e)),
      get_or-take 0 n src (j - off),
    )

pub length-memcpy :
    (dst : Bytes) (off : ℕ) (src : Bytes) (n : ℕ) → length (memcpy dst off src n) ≡ length dst
length-memcpy dst off src n = length-blit dst off (take n src)

-- The storage after the two copies of `rb_put`, byte by byte.
pub get_or-rb_put :
    (rb : RingBuf) (src : Bytes) (n j : ℕ)
    → rb.tail < length rb.buf
    → length rb.buf ≡ rb.cap
    → n ≤ rb.cap
    → n ≤ length src
    → get_or (rb_put rb src n).buf j 0 ≡ (
        let first = first_part rb.cap rb.tail n in
        if ltb j (n - first)
        then get_or src (first + j) 0
        else if ltb j rb.tail
        then get_or rb.buf j 0
        else if ltb j (rb.tail + first)
        then get_or src (j - rb.tail) 0
        else get_or rb.buf j 0)
unfolding rb_put
get_or-rb_put rb src n j ht hc hn hs =
    let first = first_part rb.cap rb.tail n in
    ground (
      arith,
      length-memcpy rb.buf rb.tail src first,
      length-drop first src,
      get_or-memcpy rb.buf rb.tail src first j,
      get_or-memcpy (memcpy rb.buf rb.tail src first) 0 (drop first src) (n - first) j,
      get_or-drop 0 first src j,
    )

pub get_or-contents :
    (rb : RingBuf) (i : ℕ)
    → rb.head < rb.cap
    → rb.count ≤ rb.cap
    → i < rb.count
    → get_or (contents rb) i 0 ≡ get_or rb.buf (wrap rb.cap (rb.head + i)) 0
unfolding contents
get_or-contents rb i = get_or-window rb.buf rb.cap rb.head rb.count i
