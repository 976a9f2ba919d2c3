-- ===== src/NetSocket.antt =====
-- firmware/port/esp/net_socket.c: the transport over a TCP socket. The sockets of lwIP are a parameter,
-- with their state `W`: what `send` and `recv` return, and whether `errno` is EINTR, or EAGAIN or
-- EWOULDBLOCK. Resolving a name, connecting and closing are calls of lwIP alone, and are not modelled.
pub mod Wire
use esp32s3_inmp.Base.{
  ℤ, pos, negsuc, ℕ, zero, suc, ◌+◌, ◌-◌, ◌≤◌, ◌<◌, ◌≡◌, ◌≢◌, refl, Bool, true, false, Bytes, [],
  ◌∷◌, length, drop, length-drop, arith,
}
use native.Mathlib.Nat.{le_refl}
use esp32s3_inmp.StreamClient.{StreamTransport}
use esp32s3_inmp.StreamClient.Ends.{Progresses}

-- What `send` does with the bytes that it is handed: it takes some, or none with an error; an error may
-- be EINTR.
pub data Sent : Type 0 where
  took : ℕ → Sent
  interrupted broken : Sent

-- What `recv` returns: how many bytes there are, EAGAIN and the like, or an error.
pub data Received : Type 0 where
  got : ℕ → Received
  none_yet lost : Received

-- A call that signals interrupt uses up an interruption that was to come, and no call adds any.
abbrev pub Interrupts : Sent → ℕ → ℕ → Type 0
Interrupts interrupted before after = after < before
Interrupts _ before after = after ≤ before

-- The sockets. `to_come` bounds the signals that will interrupt a send: they do not go on for ever.
pub record Sockets (W : Type 0) : Type 0 where
  pub send : W → Bytes → Sent × W
  pub recv : W → ℕ → Received × W
  pub to_come : W → ℕ
  pub interrupts : (w : W) (p : Bytes) → Interrupts (send w p).0 (to_come w) (to_come (send w p).1)

pub sent_some :
    (n t : ℕ) (p : Bytes) (before after : ℕ)
    → suc (length p) + before < suc n
    → after ≤ before
    → length (drop t p) + after < n
sent_some n t p before after h i = omega (arith, length-drop t p)

pub interrupted_once :
    (n len before after : ℕ) → len + before < suc n → after < before → len + after < n
interrupted_once n len before after h i = omega arith

-- The `long` that `tr_send` returns.
abbrev pub send_result : Bool → ℕ → ℤ
send_result true len = pos len
send_result false len = negsuc 0

-- The `long` that `tr_recv` returns; -2 is STREAM_WOULDBLOCK.
unfoldable pub recv_result : Received → ℤ
recv_result (got n) = pos n
recv_result none_yet = negsuc 1
recv_result lost = negsuc 0

module _ {W : Type 0} (k : Sockets W) where
  -- What follows a call of `send` with the bytes `p`, where `again` is the loop on what is left. The answer
  -- is whether all was sent; `n <= 0` ends the loop unless it is EINTR.
  unfoldable pub after_send :
      (n : ℕ) (c : ℕ) (p : Bytes) (before : ℕ)
      → length (c ∷ p) + before < suc n
      → ((w : W) (q : Bytes) → length q + k.to_come w < n → Bool × W)
      → (r : Sent) (w : W) → Interrupts r before (k.to_come w)
      → Bool × W
  unfolding sent_some interrupted_once
  after_send n c p before h again (took zero) w i = (false, w)
  after_send n c p before h again (took (suc t)) w i =
      again w (drop t p) (sent_some n t p before (k.to_come w) h i)
  after_send n c p before h again interrupted w i =
      again w (c ∷ p) (interrupted_once n (length (c ∷ p)) before (k.to_come w) h i)
  after_send n c p before h again broken w i = (false, w)

  -- The loop of `tr_send`; the bound `n` is on the bytes and the interruptions that are left.
  unfoldable pub send_loop : (n : ℕ) (w : W) (p : Bytes) → length p + k.to_come w < n → Bool × W
  unfolding after_send
  send_loop zero w p h = absurd (omega arith)
  send_loop (suc n) w [] h = (true, w)
  send_loop (suc n) w (c ∷ p) h =
      after_send n c p (k.to_come w) h (λ w' q h'. send_loop n w' q h') (k.send w (c ∷ p)).0
        (k.send w (c ∷ p)).1 (k.interrupts w (c ∷ p))

  unfoldable pub tr_send : W → Bytes → ℤ × W
  unfolding send_loop
  tr_send w p =
      let (all, w') = send_loop (suc (length p + k.to_come w)) w p (le_refl _) in
      (send_result all (length p), w')

  unfoldable pub tr_recv : W → ℕ → ℤ × W
  unfolding recv_result
  tr_recv w len = let (r, w') = k.recv w len in (recv_result r, w')

  abbrev pub ss_tcp_transport : StreamTransport W
  ss_tcp_transport = record { send = tr_send; recv = tr_recv }
