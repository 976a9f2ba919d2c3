-- ===== src/PosixTransport/Carried.antt =====
-- The transport and the source of posix_transport.c carry the samples to the wire.
use esp32s3_inmp.Base.{
  ℤ, pos, negsuc, ℕ, zero, suc, ◌+◌, ◌^◌, ◌≤◌, ◌<◌, ◌≡◌, refl, sym, ap, ◌∙◌, Bytes, [], ◌∷◌, ◌++◌,
  length, take, drop, length-drop, length-take, ◌≢◌, take_all, drop_all, subst, take-append-drop,
  take-take-drop, Bool-cases, inl, inr, ltb, if◌then◌else◌, ◌-◌, ◌%◌, append-nil, append_assoc,
  arith,
}
use native.Mathlib.Nat.{le_refl}
use esp32s3_inmp.StreamClient.Ends.{Progresses, ReadsUpTo}
use esp32s3_inmp.StreamClient.Sends.{Took, Carries}
use esp32s3_inmp.NetSocket.{Sent, took, interrupted, broken}
use esp32s3_inmp.NetSocket.Wire.{Adds}
use esp32s3_inmp.PosixTransport.{
  HostSockets, Stalls, after_send, send_loop, tr_send, tr_recv, PcmBufSrc, buf_read,
  posix_transport, pcm_buffer_source,
}

-- The buffer has the samples `xs` left, and its place is inside it.
abbrev pub Remains : PcmBufSrc → Bytes → Type 0
Remains s xs =
    (s.len ≡ length s.bytes) × (s.offset ≤ s.len) × (s.len < 2 ^ 64) × (xs ≡ drop s.offset s.bytes)

drop_empty : (n : ℕ) → drop {A = ℕ} n [] ≡ []
drop_empty zero = refl
drop_empty (suc n) = refl

drop-drop : (a b : ℕ) (xs : Bytes) → drop b (drop a xs) ≡ drop (a + b) xs
drop-drop zero b xs = ap (λ n. drop n xs) (omega arith)
drop-drop (suc a) b [] = drop_empty b ∙ sym (drop_empty (suc a + b))
drop-drop (suc a) b (x ∷ xs) =
    let e : suc a + b ≡ suc (a + b) = omega arith in
    drop-drop a b xs ∙ sym (ap (λ n. drop n (x ∷ xs)) e)

-- What is there, or as much of it as is asked for.
abbrev at_most : ℕ → ℕ → ℕ
at_most there n = if ltb there n then there else n

at_most_lem :
    (n : ℕ) (xs : Bytes)
    → let m = at_most (length xs) n in
      (take m xs ≡ take n xs) × (drop m xs ≡ drop n xs) × (m ≤ length xs)
at_most_lem n xs = elim (Bool-cases (ltb (length xs) n)) [
  | inl e ↦
      let few : length xs ≤ n = ground (arith, e) in
      rw e (
        take_all (length xs) xs (omega arith) ∙ sym (take_all n xs few),
        drop_all (length xs) xs (omega arith) ∙ sym (drop_all n xs few),
        omega arith,
      )
  | inr e ↦ rw e (refl, refl, ground (arith, e))
]

module _ (s : PcmBufSrc) (n : ℕ) (xs : Bytes) (e : s.len ≡ length s.bytes) (le : s.offset ≤ s.len)
    (small : s.len < 2 ^ 64) (x : xs ≡ drop s.offset s.bytes) where
  remain : (s.len + 2 ^ 64 - s.offset) % 2 ^ 64 ≡ length xs
  remain = omega (arith, length-drop s.offset s.bytes, ap length x)

  buf_read_lem : ((buf_read s n).0 ≡ take n xs) × Remains (buf_read s n).1 (drop n xs)
  unfolding buf_read
  buf_read_lem =
      let (t, d, m) = at_most_lem n xs in
      let k = at_most (length xs) n in
      elim (Bool-cases (ltb 0 k)) [
        | inl f ↦ rw (remain, f) (ap (take k) (sym x) ∙ t, (e, omega (arith, within), small, on))
        | inr f ↦
            let stays : k ≡ 0 = ground (arith, f) in
            rw (remain, f)
              (
                ap (λ j. take j xs) (sym stays) ∙ t,
                (e, le, small, sym d ∙ (ap (λ j. drop j xs) stays ∙ x)),
              )
      ]
    where
      k : ℕ
      k = at_most (length xs) n

      within : s.offset + k ≤ s.len
      within = omega (arith, length-drop s.offset s.bytes, ap length x, (at_most_lem n xs).2)

      on : drop n xs ≡ drop ((s.offset + k) % 2 ^ 64) s.bytes
      on =
          sym (at_most_lem n xs).1
          ∙ (ap (drop k) x
              ∙ (drop-drop s.offset k s.bytes
                  ∙ ap (λ j. drop j s.bytes) {x = s.offset + k} {y = (s.offset + k) % 2 ^ 64}
                      (omega (arith, within))))

module _ {W : Type 0} (k : HostSockets W) (wire : W → Bytes)
    (adds : (w : W) (p : Bytes) → Adds p (k.send w p).0 (wire w) (wire (k.send w p).1)) where
  -- What the loop of `tr_send` has done with `p`, when `sent` bytes were out before.
  abbrev Out : ℕ → Bytes → Bytes → ℤ × W → Type 0
  Out sent p was (pos n, w) = (n ≡ sent + length p) × (wire w ≡ was ++ p)
  Out sent p was (negsuc e, w) = (n : ℕ) × (n ≤ length p) × (wire w ≡ was ++ take n p)

  Out-on :
      (t sent : ℕ) (p was now : Bytes) (r : ℤ × W)
      → t ≤ length p
      → now ≡ was ++ take t p
      → Out (sent + t) (drop t p) now r
      → Out sent p was r
  Out-on t sent p was now (pos n, w) le e (count, out) = (
    omega (arith, count, length-drop t p),
    out
        ∙ (ap (λ x. x ++ drop t p) e
            ∙ (append_assoc was (take t p) (drop t p) ∙ ap (λ x. was ++ x) (take-append-drop t p))),
  )
  Out-on t sent p was now (negsuc _, w) le e (n, le', out) = (
    t + n,
    omega (arith, length-drop t p),
    out
        ∙ (ap (λ x. x ++ take n (drop t p)) e
            ∙ (append_assoc was (take t p) (take n (drop t p))
                ∙ ap (λ x. was ++ x) (take-take-drop t n p))),
  )

  -- The same bytes again, of a wire that has not changed.
  Out-again :
      (sent : ℕ) (p was now : Bytes) (r : ℤ × W) → now ≡ was → Out sent p now r → Out sent p was r
  Out-again sent p was now r e o = subst (λ b. Out sent p b r) e o

  after_send-Out :
      (n sent c : ℕ) (p : Bytes) (before : ℕ) (h : length (c ∷ p) + before < suc n)
      (again : (w : W) (sent : ℕ) (q : Bytes) → length q + k.to_come w < n → ℤ × W) (r : Sent)
      (w : W) (i : Stalls r before (k.to_come w)) (was : Bytes)
      → Adds (c ∷ p) r was (wire w)
      → ((w : W) (sent : ℕ) (q : Bytes) (h : length q + k.to_come w < n)
          → Out sent q (wire w) (again w sent q h))
      → Out sent (c ∷ p) was (after_send k n sent c p before h again r w i)
  unfolding after_send
  after_send-Out n sent c p before h again interrupted w i was e ih =
      Out-again sent (c ∷ p) was (wire w) _ e (ih w sent (c ∷ p) _)
  after_send-Out n sent c p before h again broken w i was e ih =
      (0, omega arith, e ∙ sym (append-nil was))
  after_send-Out n sent c p before h again (took zero) w i was (le, e) ih =
      Out-again sent (c ∷ p) was (wire w) _ (e ∙ append-nil was) (ih w sent (c ∷ p) _)
  after_send-Out n sent c p before h again (took (suc t)) w i was (le, e) ih =
      Out-on (suc t) sent (c ∷ p) was (wire w) _ le e (ih w (sent + suc t) (drop (suc t) (c ∷ p)) _)

  send_loop-Out :
      (n : ℕ) (w : W) (sent : ℕ) (p : Bytes) (h : length p + k.to_come w < n)
      → Out sent p (wire w) (send_loop k n w sent p h)
  unfolding send_loop
  send_loop-Out zero w sent p h = absurd (omega arith)
  send_loop-Out (suc n) w sent [] h = (omega arith, sym (append-nil (wire w)))
  send_loop-Out (suc n) w sent (c ∷ p) h =
      after_send-Out n sent c p (k.to_come w) h (λ w' sent' q h'. send_loop k n w' sent' q h')
        (k.send w (c ∷ p)).0 (k.send w (c ∷ p)).1 (k.stalls w c p) (wire w) (adds w (c ∷ p))
        (λ w' sent' q h'. send_loop-Out n w' sent' q h')

  tr_send-Took : (w : W) (p : Bytes) → Took p (tr_send k w p).0 (wire w) (wire (tr_send k w p).1)
  unfolding tr_send
  tr_send-Took w p =
      took_all (tr_send k w p) (
        send_loop-Out (suc (length p + k.to_come w)) w 0 p (le_refl (suc (length p + k.to_come w))))
    where
      took_all : (r : ℤ × W) → Out 0 p (wire w) r → Took p r.0 (wire w) (wire r.1)
      took_all (pos n, w') (e, out) =
          (omega (arith, e), out ∙ sym (ap (λ x. wire w ++ x) (take_all n p (omega (arith, e)))))
      took_all (negsuc e, w') o = o

  -- The sockets must leave the wire alone in `recv`, too.
  pub posix_Carries :
      (n : ℕ)
      → ((w : W) (len : ℕ) → wire (k.recv w len).1 ≡ wire w)
      → Carries (posix_transport k) (pcm_buffer_source k) (λ u. wire u.0) (λ u xs. Remains u.1 xs) n
  unfolding tr_recv
  posix_Carries n quiet = record {
    sends = λ u p. tr_send-Took u.0 p;
    sends_only = λ u p xs l. l;
    recvs = λ u len. quiet u.0 len;
    recvs_only = λ u len xs l. l;
    reads = λ u xs (e, le, small, x). (buf_read_lem u.1 n xs e le small x).0;
    reads_on = λ u xs (e, le, small, x). (buf_read_lem u.1 n xs e le small x).1;
    reads_only = λ u. refl;
  }

  pub posix-Progresses : Progresses (posix_transport k)
  unfolding tr_send
  posix-Progresses u c p e =
      never (send_loop k (suc (length (c ∷ p) + k.to_come u.0)) u.0 0 (c ∷ p) (le_refl _))
        (send_loop-Out (suc (length (c ∷ p) + k.to_come u.0)) u.0 0 (c ∷ p) (le_refl _)) e
    where
      never : (r : ℤ × W) → Out 0 (c ∷ p) (wire u.0) r → r.0 ≢ pos 0
      never (pos zero, w) (e, out) = λ z. absurd (omega (arith, e))
      never (pos (suc n), w) o = λ z. cc
      never (negsuc n, w) o = λ z. cc

pub pcm_buffer-ReadsUpTo :
    {W : Type 0} (k : HostSockets W) (n : ℕ) → ReadsUpTo (pcm_buffer_source k) n
unfolding buf_read
pcm_buffer-ReadsUpTo k n u =
    let remain = (u.1.len + 2 ^ 64 - u.1.offset) % 2 ^ 64 in
    ground (
      arith,
      length-take remain (drop u.1.offset u.1.bytes),
      length-take n (drop u.1.offset u.1.bytes),
    )
