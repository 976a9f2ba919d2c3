-- ===== src/RingBuf/Queue.antt =====
-- Each operation of firmware/core/src/ringbuf.c against a bounded queue of bytes.
use esp32s3_inmp.Base.{
  ℕ, ◌+◌, ◌-◌, ◌^◌, ◌≤◌, ◌<◌, ◌≡◌, refl, Bytes, [], ◌++◌, arith, ltb, if◌then◌else◌, length, take,
  drop, min, length-drop, append-nil, take_all, drop-append_le, drop-append_ge,
}
use esp32s3_inmp.RingBuf.{
  RingBuf, rb_put, rb_drop, ringbuf_init, ringbuf_reset, ringbuf_write, ringbuf_write_overwrite,
  ringbuf_read, ringbuf_peek, clipped,
}
use esp32s3_inmp.RingBuf.Window.{IsValid, window, contents, length-contents}
use esp32s3_inmp.RingBuf.Put.{contents-rb_put, rb_put-IsValid}
use esp32s3_inmp.RingBuf.Remove.{contents-rb_drop, rb_drop-IsValid, rb_drop-head, copy_out_lem}

-- A ring buffer over storage of `cap` bytes, neither empty nor beyond the size of an object, is
-- valid and empty.
pub ringbuf_init-IsValid :
    (storage : Bytes) (cap : ℕ)
    → length storage ≡ cap
    → 0 < cap
    → cap ≤ 2 ^ 31
    → IsValid (ringbuf_init storage cap) × (contents (ringbuf_init storage cap) ≡ [])
unfolding ringbuf_init contents window
ringbuf_init-IsValid storage cap e pos small = (omega arith, refl)

abbrev fitting : RingBuf → Bytes → ℕ
fitting rb xs = if ltb (length xs) (rb.cap - rb.count) then length xs else rb.cap - rb.count

-- `ringbuf_write` takes as many bytes as are free, from the front of the data, appends exactly those
-- to the bytes held, returns their number, and keeps the buffer valid.
pub ringbuf_write_lem :
    (rb : RingBuf) (xs : Bytes)
    → IsValid rb
    → let (n, rb') = ringbuf_write rb xs in
      (n ≡ min (length xs) (rb.cap - rb.count))
      × (contents rb' ≡ contents rb ++ take n xs)
      × IsValid rb'
unfolding ringbuf_write
ringbuf_write_lem rb xs v = ground (
  arith,
  append-nil (contents rb),
  contents-rb_put rb xs (fitting rb xs) v,
  rb_put-IsValid rb xs (fitting rb xs) v,
)

-- `ringbuf_reset` empties a valid buffer.
pub ringbuf_reset-IsValid :
    (rb : RingBuf) → IsValid rb → IsValid (ringbuf_reset rb) × (contents (ringbuf_reset rb) ≡ [])
unfolding ringbuf_reset contents window
ringbuf_reset-IsValid rb v = (omega arith, refl)

reset-fields : (rb : RingBuf) → ((ringbuf_reset rb).cap ≡ rb.cap) × ((ringbuf_reset rb).count ≡ 0)
unfolding ringbuf_reset
reset-fields rb = (refl, refl)

-- The data fill the storage: all that was held is lost, and the front of the data.
overwrite_all :
    (rb : RingBuf) (xs : Bytes)
    → IsValid rb
    → rb.cap ≤ length xs
    → let rb' = rb_put (ringbuf_reset rb) (drop (length xs - rb.cap) xs) rb.cap in
      (contents rb' ≡ drop (rb.count + length xs - rb.cap) (contents rb ++ xs)) × IsValid rb'
overwrite_all rb xs v h =
    let (valid, nothing) = ringbuf_reset-IsValid rb v in
    ground (
      arith,
      reset-fields rb,
      nothing,
      length-contents rb,
      length-drop (length xs - rb.cap) xs,
      contents-rb_put (ringbuf_reset rb) (drop (length xs - rb.cap) xs) rb.cap valid,
      rb_put-IsValid (ringbuf_reset rb) (drop (length xs - rb.cap) xs) rb.cap valid,
      take_all rb.cap (drop (length xs - rb.cap) xs),
      drop-append_ge (rb.count + length xs - rb.cap) (contents rb) xs,
      same_start,
    )
  where
    same_start : rb.count + length xs - rb.cap - rb.count ≡ length xs - rb.cap
    same_start = omega arith

-- The data fit once the oldest bytes are dropped.
overwrite_some :
    (rb : RingBuf) (xs : Bytes)
    → IsValid rb
    → length xs < rb.cap
    → rb.cap - rb.count < length xs
    → let need = length xs - (rb.cap - rb.count) in
      let rb' = rb_put (rb_drop rb need) xs (length xs) in
      (contents rb' ≡ drop need (contents rb ++ xs)) × IsValid rb'
overwrite_some rb xs v h more =
    let need : ℕ = length xs - (rb.cap - rb.count) in
    let dropped : IsValid (rb_drop rb need) = rb_drop-IsValid rb need v (omega arith) in
    ground (
      arith,
      rb_drop-head need v,
      length-contents rb,
      contents-rb_drop rb need v,
      contents-rb_put (rb_drop rb need) xs (length xs) dropped,
      rb_put-IsValid (rb_drop rb need) xs (length xs) dropped,
      take_all (length xs) xs,
      drop-append_le need (contents rb) xs,
    )

-- `ringbuf_write_overwrite` leaves the last `cap` bytes of what was held followed by the data, returns
-- the number of bytes lost from the front, and keeps the buffer valid.
pub ringbuf_write_overwrite_lem :
    (rb : RingBuf) (xs : Bytes)
    → IsValid rb
    → length xs ≤ 2 ^ 31
    → let (lost, rb') = ringbuf_write_overwrite rb xs in
      (lost ≡ rb.count + length xs - rb.cap)
      × (contents rb' ≡ drop lost (contents rb ++ xs))
      × IsValid rb'
unfolding ringbuf_write_overwrite
ringbuf_write_overwrite_lem rb xs v small = ground (
  arith,
  append-nil (contents rb),
  overwrite_all rb xs v,
  overwrite_some rb xs v,
  contents-rb_put rb xs (length xs) v,
  rb_put-IsValid rb xs (length xs) v,
  take_all (length xs) xs,
)

-- `ringbuf_read` hands out the oldest bytes, as many as asked for and held, removes exactly those,
-- leaves the rest of the output as it was, and keeps the buffer valid.
pub ringbuf_read_lem :
    (rb : RingBuf) (out : Bytes) (len : ℕ)
    → IsValid rb
    → len ≤ length out
    → let (n, out', rb') = ringbuf_read rb out len in
      (n ≡ min len rb.count)
      × (out' ≡ take n (contents rb) ++ drop n out)
      × (contents rb' ≡ drop n (contents rb))
      × IsValid rb'
unfolding ringbuf_read
ringbuf_read_lem rb out len v room = ground (
  arith,
  copy_out_lem rb out (clipped rb len) v,
  contents-rb_drop rb (clipped rb len) v,
  rb_drop-IsValid rb (clipped rb len) v,
  length-contents rb,
)

-- `ringbuf_peek` returns and copies what `ringbuf_read` would.
pub peek-read :
    (rb : RingBuf) (out : Bytes) (len : ℕ)
    → let (n, out', rb') = ringbuf_read rb out len in ringbuf_peek rb out len ≡ (n, out')
unfolding ringbuf_read ringbuf_peek
peek-read rb out len = ground arith
