-- ===== src/RingBuf/Put.antt =====
-- `rb_put` of firmware/core/src/ringbuf.c, on the bytes that a valid ring buffer holds.
use native.Mathlib.Nat.{mod-add-mod}
use esp32s3_inmp.Base.{
  ℕ, ◌+◌, ◌-◌, ◌%◌, ◌≤◌, ◌<◌, ◌≡◌, refl, ap, Bytes, ◌++◌, arith, ltb, if◌then◌else◌, length, get_or,
  take, drop, get_or-append, get_or-take, list_ext, length-append, length-take, ◌∙◌,
}
use esp32s3_inmp.RingBuf.{RingBuf, add_size, memcpy, first_part, rb_put}
use esp32s3_inmp.RingBuf.Window.{
  IsValid, wrap, wrap-mod, contents, length-contents, get_or-rb_put, length-memcpy, get_or-contents,
}

-- The tail as an index into the storage.
tail_wrap : {rb : RingBuf} → IsValid rb → rb.tail ≡ wrap rb.cap (rb.head + rb.count)
tail_wrap {rb} v = omega (arith, v.tail_at ∙ wrap-mod rb.cap (rb.head + rb.count) (omega arith))

rb_put-tail :
    {rb : RingBuf} (n : ℕ)
    → IsValid rb
    → n ≤ rb.cap - rb.count
    → add_size rb.tail n % rb.cap ≡ (rb.head + add_size rb.count n) % rb.cap
rb_put-tail {rb} n v h =
    let sum : add_size rb.tail n ≡ rb.tail + n = omega (arith, tail_wrap v) in
    let total : add_size rb.count n ≡ rb.count + n = omega arith in
    rw (sum, total, v.tail_at, mod-add-mod) (ap (λ k. k % rb.cap) (omega arith))

pub rb_put-IsValid :
    (rb : RingBuf) (src : Bytes) (n : ℕ)
    → IsValid rb
    → n ≤ rb.cap - rb.count
    → IsValid (rb_put rb src n)
unfolding rb_put
rb_put-IsValid rb src n v h = record {
  storage = omega (
    arith,
    length-memcpy rb.buf rb.tail src first,
    length-memcpy (memcpy rb.buf rb.tail src first) 0 (drop first src) (n - first),
  );
  some_room = v.some_room;
  small = v.small;
  head_in = v.head_in;
  count_in = omega arith;
  tail_at = rb_put-tail n v h;
}
  where
    first : ℕ
    first = first_part rb.cap rb.tail n

pub rb_put-fields :
    (rb : RingBuf) (src : Bytes) (n : ℕ)
    → IsValid rb
    → n ≤ rb.cap - rb.count
    → ((rb_put rb src n).head ≡ rb.head)
      × ((rb_put rb src n).cap ≡ rb.cap)
      × ((rb_put rb src n).count ≡ rb.count + n)
unfolding rb_put
rb_put-fields rb src n v h = (refl, refl, omega arith)

-- Byte `i` after a put: an old byte, or a new one.
get_or-contents-rb_put :
    (rb : RingBuf) (src : Bytes) (n i : ℕ)
    → IsValid rb
    → n ≤ rb.cap - rb.count
    → n ≤ length src
    → i < rb.count + n
    → get_or (rb_put rb src n).buf (wrap rb.cap (rb.head + i)) 0 ≡ (
        if ltb i rb.count
        then get_or rb.buf (wrap rb.cap (rb.head + i)) 0
        else get_or src (i - rb.count) 0)
get_or-contents-rb_put rb src n i v h hs lt = ground (
  arith,
  tail_wrap v,
  get_or-rb_put rb src n (wrap rb.cap (rb.head + i)) (omega (arith, tail_wrap v)) v.storage
      (omega arith) hs,
)

-- Putting bytes appends them to the bytes held.
pub contents-rb_put :
    (rb : RingBuf) (src : Bytes) (n : ℕ)
    → IsValid rb
    → n ≤ rb.cap - rb.count
    → n ≤ length src
    → contents (rb_put rb src n) ≡ contents rb ++ take n src
contents-rb_put rb src n v h hs =
    list_ext 0 (contents (rb_put rb src n)) (contents rb ++ take n src)
      (omega (
        arith,
        length-contents (rb_put rb src n),
        rb_put-fields rb src n v h,
        length-append (contents rb) (take n src),
        length-contents rb,
        length-take n src,
      ))
      (λ i lt.
        byte i (omega (arith, length-contents (rb_put rb src n), rb_put-fields rb src n v h, lt)))
  where
    byte :
        (i : ℕ)
        → i < rb.count + n
        → get_or (contents (rb_put rb src n)) i 0 ≡ get_or (contents rb ++ take n src) i 0
    byte i lt = ground (
      arith,
      length-contents rb,
      rb_put-fields rb src n v h,
      get_or-append 0 (contents rb) (take n src) i,
      get_or-take 0 n src (i - rb.count),
      get_or-contents rb i,
      get_or-contents (rb_put rb src n) i,
      get_or-contents-rb_put rb src n i v h hs lt,
    )
