-- ===== src/PosixTransport.antt =====
-- tools/host/posix_transport.c: the transport over a POSIX socket, and the source that hands out samples
-- from memory.
-- The sockets are a parameter, with their state `W`; opening and connecting one are calls of the system
-- alone, and are not modelled. `size_t` has 64 bits; the client's arithmetic on it is the 32 bits of StreamClient.
pub mod Carried
use esp32s3_inmp.Base.{
  ℤ, pos, negsuc, ℕ, zero, suc, ◌+◌, ◌-◌, ◌*◌, ◌%◌, ◌^◌, ◌≤◌, ◌<◌, Bool, true, false, Bytes, [],
  ◌∷◌, Option, none, some, ltb, if◌then◌else◌, length, take, drop, length-drop, arith, codes,
}
use native.Mathlib.Nat.{le_refl}
use esp32s3_inmp.Fsm.{Event, server_closed}
use esp32s3_inmp.NetSocket.{Sent, took, interrupted, broken, Received, got, none_yet, lost}
use esp32s3_inmp.StreamClient.{StreamTransport, PcmSource, StreamClientCfg, stream_client_run}

-- A call of `send` that is interrupted, or takes nothing, uses up one that was to come, and no call adds any.
abbrev pub Stalls : Sent → ℕ → ℕ → Type 0
Stalls interrupted before after = after < before
Stalls (took zero) before after = after < before
Stalls (took (suc t)) before after = after ≤ before
Stalls broken before after = after ≤ before

-- The sockets. `to_come` bounds the signals that will interrupt a send, and the sends that take nothing of
-- what they are handed.
pub record HostSockets (W : Type 0) : Type 0 where
  pub send : W → Bytes → Sent × W
  pub recv : W → ℕ → Received × W
  pub to_come : W → ℕ
  pub stalls :
      (w : W) (c : ℕ) (p : Bytes)
      → Stalls (send w (c ∷ p)).0 (to_come w) (to_come (send w (c ∷ p)).1)

pub some_sent :
    (n t : ℕ) (c : ℕ) (p : Bytes) (before after : ℕ)
    → length (c ∷ p) + before < suc n
    → after ≤ before
    → length (drop (suc t) (c ∷ p)) + after < n
some_sent n t c p before after h i = omega (arith, length-drop t p)

pub one_stall : (n len before after : ℕ) → len + before < suc n → after < before → len + after < n
one_stall n len before after h i = omega arith

-- The `long` that `tr_recv` returns; -2 is STREAM_WOULDBLOCK.
unfoldable pub recv_answer : Received → ℤ
recv_answer (got n) = pos n
recv_answer none_yet = negsuc 1
recv_answer lost = negsuc 0

module _ {W : Type 0} (k : HostSockets W) where
  -- What follows a call of `send` with the bytes `p` that are left, when `sent` are out; `again` is the loop.
  unfoldable pub after_send :
      (n sent c : ℕ) (p : Bytes) (before : ℕ)
      → length (c ∷ p) + before < suc n
      → ((w : W) (sent : ℕ) (q : Bytes) → length q + k.to_come w < n → ℤ × W)
      → (r : Sent) (w : W) → Stalls r before (k.to_come w)
      → ℤ × W
  unfolding some_sent one_stall
  after_send n sent c p before h again interrupted w i =
      again w sent (c ∷ p) (one_stall n (length (c ∷ p)) before (k.to_come w) h i)
  after_send n sent c p before h again broken w i = (negsuc 0, w)
  after_send n sent c p before h again (took zero) w i =
      again w sent (c ∷ p) (one_stall n (length (c ∷ p)) before (k.to_come w) h i)
  after_send n sent c p before h again (took (suc t)) w i =
      again w (sent + suc t) (drop (suc t) (c ∷ p)) (some_sent n t c p before (k.to_come w) h i)

  -- The loop of `tr_send`; the bound `n` is on the bytes and the stalls that are left.
  unfoldable pub send_loop :
      (n : ℕ) (w : W) (sent : ℕ) (p : Bytes) → length p + k.to_come w < n → ℤ × W
  unfolding after_send
  send_loop zero w sent p h = absurd (omega arith)
  send_loop (suc n) w sent [] h = (pos sent, w)
  send_loop (suc n) w sent (c ∷ p) h =
      after_send n sent c p (k.to_come w) h (λ w' sent' q h'. send_loop n w' sent' q h')
        (k.send w (c ∷ p)).0 (k.send w (c ∷ p)).1 (k.stalls w c p)

  unfoldable pub tr_send : W → Bytes → ℤ × W
  unfolding send_loop
  tr_send w p = send_loop (suc (length p + k.to_come w)) w 0 p (le_refl _)

  unfoldable pub tr_recv : W → ℕ → ℤ × W
  unfolding recv_answer
  tr_recv w len = let (r, w') = k.recv w len in (recv_answer r, w')

-- The field `pos` of the struct is `offset`, and `data` is `bytes`.
pub record PcmBufSrc : Type 0 where
  pub bytes : Bytes
  pub len : ℕ
  pub offset : ℕ

unfoldable pub buf_read : PcmBufSrc → ℕ → Bytes × PcmBufSrc
buf_read s cap =
    let remain = (s.len + 2 ^ 64 - s.offset) % 2 ^ 64 in
    let n = if ltb remain cap then remain else cap in
    if ltb 0 n
    then (take n (drop s.offset s.bytes), record s { offset = (s.offset + n) % 2 ^ 64 })
    else ([], s)

-- Both over one state: the socket's and the buffer's.
module _ {W : Type 0} (k : HostSockets W) where
  abbrev pub posix_transport : StreamTransport (W × PcmBufSrc)
  posix_transport = record {
    send = λ u p. let (n, w) = tr_send k u.0 p in (n, (w, u.1));
    recv = λ u len. let (n, w) = tr_recv k u.0 len in (n, (w, u.1));
  }

  abbrev pub pcm_buffer_source : PcmSource (W × PcmBufSrc)
  pcm_buffer_source = record { read = λ u cap. let (out, s) = buf_read u.1 cap in (out, (u.0, s)) }
