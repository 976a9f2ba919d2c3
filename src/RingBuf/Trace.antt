-- ===== src/RingBuf/Trace.antt =====
-- Any sequence of calls on a ring buffer, against a bounded queue of bytes.
use esp32s3_inmp.Base.{
  ℕ, ◌+◌, ◌-◌, ◌^◌, ◌≤◌, ◌≡◌, refl, List, Bytes, [], ◌∷◌, ◌++◌, arith, length, take, drop,
  replicate, min, length-replicate, take-append_length, length-take, ap, ◌∙◌, sym,
}
use esp32s3_inmp.RingBuf.{
  RingBuf, ringbuf_reset, ringbuf_write, ringbuf_write_overwrite, ringbuf_read, ringbuf_peek,
  rb_put, rb_drop,
}
use esp32s3_inmp.RingBuf.Window.{IsValid, contents, length-contents}
use esp32s3_inmp.RingBuf.Queue.{
  ringbuf_reset-IsValid, ringbuf_write_lem, ringbuf_write_overwrite_lem, ringbuf_read_lem,
  peek-read,
}

pub data Op : Type 0 where
  write overwrite : Bytes → Op
  read peek : ℕ → Op
  reset : Op

-- The number that a call returns, and the bytes that it hands out.
abbrev pub Reply : Type 0
Reply = ℕ × Bytes

-- A call on the buffer. The output of a read or a peek is a fresh array of the length asked for.
pub call : RingBuf → Op → Reply × RingBuf
call rb (write xs) = let (n, rb') = ringbuf_write rb xs in ((n, []), rb')
call rb (overwrite xs) = let (n, rb') = ringbuf_write_overwrite rb xs in ((n, []), rb')
call rb (read len) =
    let (n, out, rb') = ringbuf_read rb (replicate len 0) len in ((n, take n out), rb')
call rb (peek len) = let (n, out) = ringbuf_peek rb (replicate len 0) len in ((n, take n out), rb)
call rb reset = ((0, []), ringbuf_reset rb)

-- The same call on a queue of at most `cap` bytes, oldest first.
pub queue_call : ℕ → Bytes → Op → Reply × Bytes
queue_call cap q (write xs) = let n = min (length xs) (cap - length q) in ((n, []), q ++ take n xs)
queue_call cap q (overwrite xs) = let n = length q + length xs - cap in ((n, []), drop n (q ++ xs))
queue_call cap q (read len) = let n = min len (length q) in ((n, take n q), drop n q)
queue_call cap q (peek len) = let n = min len (length q) in ((n, take n q), q)
queue_call cap q reset = ((0, []), [])

pub run : RingBuf → List Op → List Reply
run rb [] = []
run rb (op ∷ ops) = let (r, rb') = call rb op in r ∷ run rb' ops

pub queue_run : ℕ → Bytes → List Op → List Reply
queue_run cap q [] = []
queue_run cap q (op ∷ ops) = let (r, q') = queue_call cap q op in r ∷ queue_run cap q' ops

-- No payload is longer than an object can be.
abbrev pub IsSmall : Op → Type 0
IsSmall (overwrite xs) = length xs ≤ 2 ^ 31
IsSmall _ = Unit {0}

abbrev pub AllSmall : List Op → Type 0
AllSmall [] = Unit {0}
AllSmall (op ∷ ops) = IsSmall op × AllSmall ops

cap-call : (rb : RingBuf) (op : Op) → (call rb op).1.cap ≡ rb.cap
unfolding call ringbuf_write ringbuf_write_overwrite ringbuf_read ringbuf_reset rb_put rb_drop
cap-call rb (write xs) = ground arith
cap-call rb (overwrite xs) = ground arith
cap-call rb (read len) = ground arith
cap-call rb (peek len) = ground arith
cap-call rb reset = refl

-- The front of an output that starts with `n` bytes of the queue.
take_front :
    (n : ℕ) (q rest out : Bytes) → n ≤ length q → out ≡ take n q ++ rest → take n out ≡ take n q
take_front n q rest out h e =
    let l : length (take n q) ≡ n = omega (arith, length-take n q) in
    ap (take n) e
    ∙ (ap (λ k. take k (take n q ++ rest)) (sym l) ∙ take-append_length (take n q) rest)

call_refines :
    (rb : RingBuf) (op : Op)
    → IsValid rb
    → IsSmall op
    → let (r, rb') = call rb op in
      ((r, contents rb') ≡ queue_call rb.cap (contents rb) op) × IsValid rb'
unfolding call queue_call
call_refines rb (write xs) v s = ground (arith, ringbuf_write_lem rb xs v, length-contents rb)
call_refines rb (overwrite xs) v s =
    ground (arith, ringbuf_write_overwrite_lem rb xs v s, length-contents rb)
call_refines rb (read len) v s =
    let zeros : Bytes = replicate len 0 in
    let (n, out, rb') = ringbuf_read rb zeros len in
    ground (
      arith,
      ringbuf_read_lem rb zeros len v (omega (arith, length-replicate {A = ℕ} len 0)),
      length-contents rb,
      take_front n (contents rb) (drop n zeros) out,
    )
call_refines rb (peek len) v s =
    let zeros : Bytes = replicate len 0 in
    let (n, out, rb') = ringbuf_read rb zeros len in
    ground (
      arith,
      peek-read rb zeros len,
      ringbuf_read_lem rb zeros len v (omega (arith, length-replicate {A = ℕ} len 0)),
      length-contents rb,
      take_front n (contents rb) (drop n zeros) out,
    )
call_refines rb reset v s = ground (arith, ringbuf_reset-IsValid rb v)

-- No sequence of writes, overwriting writes, reads, peeks and resets tells a valid ring buffer from
-- the bounded queue of the bytes that it holds: every call returns the same number and hands out the
-- same bytes. No overwriting payload is longer than 2^31 bytes.
pub run_refines :
    (ops : List Op) (rb : RingBuf)
    → IsValid rb
    → AllSmall ops
    → run rb ops ≡ queue_run rb.cap (contents rb) ops
unfolding run queue_run
run_refines [] rb v s = refl
run_refines (op ∷ ops) rb v s =
    let (same, valid) = call_refines rb op v s.0 in
    ground (arith, same, cap-call rb op, run_refines ops (call rb op).1 valid s.1)
