-- ===== src/RingBuf.antt =====
-- firmware/core/src/ringbuf.c: a FIFO of bytes over storage of fixed size.
-- `ringbuf_t` is the record `RingBuf`; `buf` is the caller's storage of `cap` bytes. A function that
-- changes `*rb` returns the new record. `size_t` is that of the ESP32-S3, 32 bits: sums of indices are
-- taken modulo 2^32. A byte is a plain number, since bytes are only moved.
pub mod Window
pub mod Put
pub mod Remove
pub mod Queue
pub mod Trace
use esp32s3_inmp.Base.{
  ℕ, ◌+◌, ◌-◌, ◌%◌, ◌^◌, Bool, ◌||◌, Bytes, if◌then◌else◌, ◌==◌, ltb, leb, length, take, drop, blit,
}

pub record RingBuf : Type 0 where
  pub buf : Bytes
  pub cap : ℕ
  pub head : ℕ
  pub tail : ℕ
  pub count : ℕ

-- `size_t` addition.
abbrev pub add_size : ℕ → ℕ → ℕ
add_size a b = (a + b) % 2 ^ 32

-- `memcpy(dst + off, src, n)`
abbrev pub memcpy : Bytes → ℕ → Bytes → ℕ → Bytes
memcpy dst off src n = blit dst off (take n src)

pub ringbuf_init : Bytes → ℕ → RingBuf
ringbuf_init storage cap = record { buf = storage; cap = cap; head = 0; tail = 0; count = 0 }

pub ringbuf_reset : RingBuf → RingBuf
ringbuf_reset rb = record rb { head = 0; tail = 0; count = 0 }

pub ringbuf_capacity : RingBuf → ℕ
ringbuf_capacity rb = rb.cap

pub ringbuf_size : RingBuf → ℕ
ringbuf_size rb = rb.count

-- `cap - count` does not wrap, since a valid buffer has `count <= cap`.
pub ringbuf_free : RingBuf → ℕ
ringbuf_free rb = rb.cap - rb.count

pub ringbuf_is_empty : RingBuf → Bool
ringbuf_is_empty rb = rb.count == 0

pub ringbuf_is_full : RingBuf → Bool
ringbuf_is_full rb = rb.count == rb.cap

-- The clipped length of the first of two copies: up to the end of the storage.
abbrev pub first_part : ℕ → ℕ → ℕ → ℕ
first_part cap at n = if ltb n (cap - at) then n else cap - at

pub rb_put : RingBuf → Bytes → ℕ → RingBuf
rb_put rb src n =
    let first = first_part rb.cap rb.tail n in
    record rb {
      buf = memcpy (memcpy rb.buf rb.tail src first) 0 (drop first src) (n - first);
      tail = add_size rb.tail n % rb.cap;
      count = add_size rb.count n;
    }

-- `count -= n` does not wrap: the callers have `n <= count`.
pub rb_drop : RingBuf → ℕ → RingBuf
rb_drop rb n = record rb { head = add_size rb.head n % rb.cap; count = rb.count - n }

-- The data are the list `data_`, and `len` is its length.
pub ringbuf_write : RingBuf → Bytes → ℕ × RingBuf
ringbuf_write rb data_ =
    let len = length data_ in
    if rb.cap == 0 || len == 0
    then (0, rb)
    else let space = rb.cap - rb.count in
      let n : ℕ = if ltb len space then len else space in
      (n, if ltb 0 n then rb_put rb data_ n else rb)

pub ringbuf_write_overwrite : RingBuf → Bytes → ℕ × RingBuf
ringbuf_write_overwrite rb data_ =
    let len = length data_ in
    if rb.cap == 0 || len == 0
    then (0, rb)
    else if leb rb.cap len
    then (
      add_size rb.count (len - rb.cap),
      rb_put (ringbuf_reset rb) (drop (len - rb.cap) data_) rb.cap,
    )
    else let space = rb.cap - rb.count in
      if ltb space len
      then (len - space, rb_put (rb_drop rb (len - space)) data_ len)
      else (0, rb_put rb data_ len)

-- The two copies of `ringbuf_read` and `ringbuf_peek` out of the storage, into `out`.
pub copy_out : RingBuf → Bytes → ℕ → Bytes
copy_out rb out n =
    let first = first_part rb.cap rb.head n in
    memcpy (memcpy out 0 (drop rb.head rb.buf) first) first rb.buf (n - first)

abbrev clipped : RingBuf → ℕ → ℕ
clipped rb len = if ltb len rb.count then len else rb.count

-- The number of bytes read, the output buffer, and the ring buffer.
pub ringbuf_read : RingBuf → Bytes → ℕ → ℕ × Bytes × RingBuf
ringbuf_read rb out len =
    if rb.cap == 0 || len == 0 || rb.count == 0
    then (0, out, rb)
    else let n = clipped rb len in (n, copy_out rb out n, rb_drop rb n)

pub ringbuf_peek : RingBuf → Bytes → ℕ → ℕ × Bytes
ringbuf_peek rb out len =
    if rb.cap == 0 || len == 0 || rb.count == 0
    then (0, out)
    else let n = clipped rb len in (n, copy_out rb out n)
