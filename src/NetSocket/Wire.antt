-- ===== src/NetSocket/Wire.antt =====
-- What the transport of net_socket.c puts on the wire.
use esp32s3_inmp.Base.{
  pos, negsuc, ℕ, zero, suc, ◌+◌, ◌≤◌, ◌<◌, ◌≡◌, ◌≢◌, refl, sym, ap, ◌∙◌, Bool, true, false, Bytes,
  [], ◌∷◌, ◌++◌, length, take, drop, length-drop, take-take-drop, arith, append-nil, ◌⊎◌, inl, inr,
  append_assoc,
}
use native.Mathlib.Nat.{le_refl}
use esp32s3_inmp.StreamClient.Ends.{Progresses}
use esp32s3_inmp.NetSocket.{
  Sent, took, interrupted, broken, Interrupts, Sockets, sent_some, interrupted_once, send_result,
  after_send, send_loop, tr_send, ss_tcp_transport,
}

-- What one call of `send` does to the bytes that are on the wire: it adds those that it takes.
abbrev pub Adds : Bytes → Sent → Bytes → Bytes → Type 0
Adds p (took t) before after = (t ≤ length p) × (after ≡ before ++ take t p)
Adds p _ before after = after ≡ before

module _ {W : Type 0} (k : Sockets W) (wire : W → Bytes)
    (adds : (w : W) (p : Bytes) → Adds p (k.send w p).0 (wire w) (wire (k.send w p).1)) where
  -- Bytes from the front of `p` went out, all of them if the answer is true.
  abbrev SentFrom : Bytes → Bytes → Bool × W → Type 0
  SentFrom before p (all, w) =
      (n : ℕ) × (wire w ≡ before ++ take n p) × (n ≤ length p) × (all ≡ true → n ≡ length p)

  after_send-SentFrom :
      (n c : ℕ) (p : Bytes) (before : ℕ) (h : length (c ∷ p) + before < suc n)
      (again : (w : W) (q : Bytes) → length q + k.to_come w < n → Bool × W) (r : Sent) (w : W)
      (i : Interrupts r before (k.to_come w)) (was : Bytes)
      → Adds (c ∷ p) r was (wire w)
      → ((w : W) (q : Bytes) (h : length q + k.to_come w < n) → SentFrom (wire w) q (again w q h))
      → SentFrom was (c ∷ p) (after_send k n c p before h again r w i)
  unfolding after_send
  after_send-SentFrom n c p before h again (took zero) w i was (le, e) ih =
      (0, e, omega arith, λ x. cc)
  after_send-SentFrom n c p before h again (took (suc t)) w i was (le, e) ih =
      let (m, e', le', all) = ih w (drop t p) (sent_some n t p before (k.to_come w) h i) in
      (
        suc (t + m),
        e'
            ∙ (ap (λ x. x ++ take m (drop t p)) e
                ∙ (append_assoc was (c ∷ take t p) (take m (drop t p))
                    ∙ ap (λ x. was ++ (c ∷ x)) (take-take-drop t m p))),
        omega (arith, length-drop t p),
        λ x. omega (arith, all x, length-drop t p),
      )
  after_send-SentFrom n c p before h again interrupted w i was e ih =
      let (m, e', le', all) =
        ih w (c ∷ p) (interrupted_once n (length (c ∷ p)) before (k.to_come w) h i) in
      (m, e' ∙ ap (λ x. x ++ take m (c ∷ p)) e, le', all)
  after_send-SentFrom n c p before h again broken w i was e ih =
      (0, e ∙ sym (append-nil was), omega arith, λ x. cc)

  send_loop-SentFrom :
      (n : ℕ) (w : W) (p : Bytes) (h : length p + k.to_come w < n)
      → SentFrom (wire w) p (send_loop k n w p h)
  unfolding send_loop
  send_loop-SentFrom zero w p h = absurd (omega arith)
  send_loop-SentFrom (suc n) w [] h = (0, sym (append-nil (wire w)), omega arith, λ x. refl)
  send_loop-SentFrom (suc n) w (c ∷ p) h =
      after_send-SentFrom n c p (k.to_come w) h (λ w' q h'. send_loop k n w' q h')
        (k.send w (c ∷ p)).0 (k.send w (c ∷ p)).1 (k.interrupts w (c ∷ p)) (wire w) (adds w (c ∷ p))
        (λ w' q h'. send_loop-SentFrom n w' q h')

  -- `tr_send` puts bytes from the front of the buffer on the wire, in order and each once: all of them where
  -- it returns the length of the buffer, and otherwise it returns -1. Signals that interrupt it lose nothing.
  -- A call of the socket's `send` must add to the wire the bytes that it says it took, and nothing else.
  pub tr_send_lem :
      (w : W) (p : Bytes)
      → let (r, w') = tr_send k w p in
        (n : ℕ) × (wire w' ≡ wire w ++ take n p)
        × (((r ≡ pos (length p)) × (n ≡ length p)) ⊎ ((r ≡ negsuc 0) × (n ≤ length p)))
  unfolding tr_send
  tr_send_lem w p =
      let h = le_refl (suc (length p + k.to_come w)) in
      let (n, e, le, all) = send_loop-SentFrom (suc (length p + k.to_come w)) w p h in
      (n, e, answered (send_loop k (suc (length p + k.to_come w)) w p h).0 n le all)
    where
      answered :
          (all : Bool) (n : ℕ)
          → n ≤ length p
          → (all ≡ true → n ≡ length p)
          → ((send_result all (length p) ≡ pos (length p)) × (n ≡ length p))
            ⊎ ((send_result all (length p) ≡ negsuc 0) × (n ≤ length p))
      answered true n le e = inl (refl, e refl)
      answered false n le e = inr (refl, le)

-- The transport makes progress: it never returns 0 for bytes that it is handed.
pub ss_tcp-Progresses : {W : Type 0} (k : Sockets W) → Progresses (ss_tcp_transport k)
unfolding tr_send
ss_tcp-Progresses k w c p e =
    never
      (send_loop k (suc (length (c ∷ p) + k.to_come w)) w (c ∷ p)
        (le_refl (suc (length (c ∷ p) + k.to_come w)))).0
      e
  where
    never : (all : Bool) → send_result all (length (c ∷ p)) ≢ pos 0
    never true e = cc
    never false e = cc
