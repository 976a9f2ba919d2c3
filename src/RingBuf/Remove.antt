-- ===== src/RingBuf/Remove.antt =====
-- `rb_drop` of firmware/core/src/ringbuf.c, and the copies out of the storage.
use native.Mathlib.Nat.{mod-add-mod}
use esp32s3_inmp.Base.{
  ℕ, ◌+◌, ◌-◌, ◌%◌, ◌≤◌, ◌<◌, ◌≡◌, refl, ap, ◌∙◌, Bytes, ◌++◌, arith, length, get_or, take, drop,
  get_or-append, get_or-take, get_or-drop, list_ext, length-append, length-take, length-drop,
}
use esp32s3_inmp.RingBuf.{RingBuf, add_size, memcpy, first_part, rb_drop, copy_out}
use esp32s3_inmp.RingBuf.Window.{
  IsValid, wrap, wrap-mod, contents, length-contents, get_or-contents, get_or-memcpy, length-memcpy,
}

pub rb_drop-head :
    {rb : RingBuf} (n : ℕ)
    → IsValid rb
    → n ≤ rb.count
    → ((rb_drop rb n).head ≡ wrap rb.cap (rb.head + n))
      × ((rb_drop rb n).count ≡ rb.count - n)
      × ((rb_drop rb n).cap ≡ rb.cap)
      × ((rb_drop rb n).buf ≡ rb.buf)
unfolding rb_drop
rb_drop-head {rb} n v h =
    let sum : add_size rb.head n ≡ rb.head + n = omega arith in
    (ap (λ k. k % rb.cap) sum ∙ wrap-mod rb.cap (rb.head + n) (omega arith), refl, refl, refl)

rb_drop-tail :
    {rb : RingBuf} (n : ℕ)
    → IsValid rb
    → n ≤ rb.count
    → rb.tail ≡ (add_size rb.head n % rb.cap + (rb.count - n)) % rb.cap
rb_drop-tail {rb} n v h =
    let sum : add_size rb.head n ≡ rb.head + n = omega arith in
    rw (v.tail_at, sum, mod-add-mod) (ap (λ k. k % rb.cap) (omega arith))

pub rb_drop-IsValid : (rb : RingBuf) (n : ℕ) → IsValid rb → n ≤ rb.count → IsValid (rb_drop rb n)
unfolding rb_drop
rb_drop-IsValid rb n v h = record {
  storage = v.storage;
  some_room = v.some_room;
  small = v.small;
  head_in = omega arith;
  count_in = omega arith;
  tail_at = rb_drop-tail n v h;
}

-- Dropping `n` bytes drops the `n` oldest.
pub contents-rb_drop :
    (rb : RingBuf) (n : ℕ)
    → IsValid rb
    → n ≤ rb.count
    → contents (rb_drop rb n) ≡ drop n (contents rb)
contents-rb_drop rb n v h =
    list_ext 0 (contents (rb_drop rb n)) (drop n (contents rb))
      (omega (
        arith,
        length-contents (rb_drop rb n),
        length-contents rb,
        length-drop n (contents rb),
        rb_drop-head n v h,
      ))
      (λ i lt. byte i (omega (arith, length-contents (rb_drop rb n), rb_drop-head n v h, lt)))
  where
    byte :
        (i : ℕ)
        → i < rb.count - n
        → get_or (contents (rb_drop rb n)) i 0 ≡ get_or (drop n (contents rb)) i 0
    byte i lt = ground (
      arith,
      rb_drop-head n v h,
      get_or-drop 0 n (contents rb) i,
      get_or-contents rb (n + i),
      get_or-contents (rb_drop rb n) i,
    )

-- What the two copies leave in `out`: the `n` oldest bytes, and behind them what was there.
pub copy_out_lem :
    (rb : RingBuf) (out : Bytes) (n : ℕ)
    → IsValid rb
    → n ≤ rb.count
    → n ≤ length out
    → copy_out rb out n ≡ take n (contents rb) ++ drop n out
unfolding copy_out
copy_out_lem rb out n v h ho =
    list_ext 0 (copy_out rb out n) (take n (contents rb) ++ drop n out) size byte
  where
    first : ℕ
    first = first_part rb.cap rb.head n

    size : length (copy_out rb out n) ≡ length (take n (contents rb) ++ drop n out)
    size = omega (
      arith,
      length-memcpy out 0 (drop rb.head rb.buf) first,
      length-memcpy (memcpy out 0 (drop rb.head rb.buf) first) first rb.buf (n - first),
      length-append (take n (contents rb)) (drop n out),
      length-take n (contents rb),
      length-contents rb,
      length-drop n out,
    )

    byte :
        (i : ℕ)
        → i < length (copy_out rb out n)
        → get_or (copy_out rb out n) i 0 ≡ get_or (take n (contents rb) ++ drop n out) i 0
    byte i lt = ground (
      arith,
      length-take n (contents rb),
      length-contents rb,
      length-drop rb.head rb.buf,
      length-memcpy out 0 (drop rb.head rb.buf) first,
      get_or-memcpy out 0 (drop rb.head rb.buf) first i,
      get_or-memcpy (memcpy out 0 (drop rb.head rb.buf) first) first rb.buf (n - first) i,
      get_or-drop 0 rb.head rb.buf i,
      get_or-append 0 (take n (contents rb)) (drop n out) i,
      get_or-take 0 n (contents rb) i,
      get_or-contents rb i,
      get_or-drop 0 n out (i - n),
    )
