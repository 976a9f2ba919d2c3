-- ===== src/StreamClient/Sends.antt =====
-- What a session of `stream_client_run` puts on the wire.
pub mod Loop
use esp32s3_inmp.Base.{
  ℤ, pos, negsuc, ℕ, zero, suc, ◌+◌, ◌^◌, ◌≤◌, ◌<◌, ◌≡◌, refl, sym, ap, ◌∙◌, u32, sub32, Bool, true,
  false, List, Bytes, [], ◌∷◌, ◌++◌, Option, none, some, ◌==◌, ltb, length, length-append, take,
  drop, length-drop, take_all, take-append-drop, take-take-drop, append-nil, append_assoc, arith,
  Bool-cases, inl, inr,
}
use esp32s3_inmp.Fsm.{Event, server_closed, session_timeout, failure}
use esp32s3_inmp.StreamProto.{
  stream_proto_build_request_header, stream_proto_chunk_overhead, stream_proto_encode_chunk,
  stream_proto_encode_final, final_chunk, hex_digits,
}
use esp32s3_inmp.RoundTrip.Hex.{hex_digits_bounds}
use esp32s3_inmp.RoundTrip.Body.{stream, encode_final_lem}
use esp32s3_inmp.StreamClient.{
  StreamTransport, PcmSource, StreamClientCfg, still_open, closed, broken, send_all, poll_close,
  send_encoded, wait_close, after_send, after_last_send, end_of_speech, chunk_loop, run_session,
  stream_client_run,
}
use esp32s3_inmp.StreamClient.Ends.{Poll-cases}
use esp32s3_inmp.StreamClient.Room.{chunk_has_room}

-- What one call of `send` does to the bytes on the wire: it adds as many from the front of the buffer as
-- it answers, and some of them where it answers with an error.
abbrev pub Took : Bytes → ℤ → Bytes → Bytes → Type 0
Took p (pos n) before after = (n ≤ length p) × (after ≡ before ++ take n p)
Took p (negsuc k) before after = (n : ℕ) × (n ≤ length p) × (after ≡ before ++ take n p)

-- The transport and the source of a session: `wire` is what the server is sent, and `Left u xs` says
-- that in the state `u` the source has the samples `xs` to hand out yet, `n` bytes at a time.
pub record Carries {U : Type 0} (tr : StreamTransport U) (src : PcmSource U) (wire : U → Bytes)
    (Left : U → Bytes → Type 0) (n : ℕ) : Type 0 where
  pub sends : (u : U) (p : Bytes) → Took p (tr.send u p).0 (wire u) (wire (tr.send u p).1)
  pub sends_only : (u : U) (p xs : Bytes) → Left u xs → Left (tr.send u p).1 xs
  pub recvs : (u : U) (k : ℕ) → wire (tr.recv u k).1 ≡ wire u
  pub recvs_only : (u : U) (k : ℕ) (xs : Bytes) → Left u xs → Left (tr.recv u k).1 xs
  pub reads : (u : U) (xs : Bytes) → Left u xs → (src.read u n).0 ≡ take n xs
  pub reads_on : (u : U) (xs : Bytes) → Left u xs → Left (src.read u n).1 (drop n xs)
  pub reads_only : (u : U) → wire (src.read u n).1 ≡ wire u

-- The samples in frames of `n` bytes, the last one shorter, and no more than `most` of them.
unfoldable pub frames : ℕ → ℕ → Bytes → List Bytes
frames zero n xs = []
frames (suc most) n xs = elim (length (take n xs) == 0) [
  | true ↦ []
  | false ↦ take n xs ∷ frames most n (drop n xs)
]

take-append_le : (n : ℕ) (xs ys : Bytes) → n ≤ length xs → take n (xs ++ ys) ≡ take n xs
take-append_le zero xs ys h = refl
take-append_le (suc n) [] ys h = absurd (omega arith)
take-append_le (suc n) (x ∷ xs) ys h = ap (λ t. x ∷ t) (take-append_le n xs ys (omega arith))

take-append_ge : (n : ℕ) (xs ys : Bytes) → take (length xs + n) (xs ++ ys) ≡ xs ++ take n ys
take-append_ge n [] ys = ap (λ k. take k ys) {x = 0 + n} {y = n} (omega arith)
take-append_ge n (x ∷ xs) ys =
    ap (λ k. take k (x ∷ (xs ++ ys))) {x = suc (length xs) + n} {y = suc (length xs + n)}
      (omega arith)
    ∙ ap (λ t. x ∷ t) (take-append_ge n xs ys)

module _ {U : Type 0} (wire : U → Bytes) (Left : U → Bytes → Type 0) where
  -- What a loop that sends `p` has done: all of it is on the wire, or a part from the front.
  abbrev pub SentOf : Bytes → U → Option (Bool × U) → Type 0
  SentOf p u none = Unit {0}
  SentOf p u (some (true, u')) = (wire u' ≡ wire u ++ p) × ((xs : Bytes) → Left u xs → Left u' xs)
  SentOf p u (some (false, u')) = (n : ℕ) × (n ≤ length p) × (wire u' ≡ wire u ++ take n p)

  -- What a session that has `q` to send has done: it sent a part from the front, and all of it if it
  -- ran to its end and `Whole` holds.
  abbrev pub Streamed : Type 0 → Bytes → U → Option (Event × U) → Type 0
  Streamed Whole q u none = Unit {0}
  Streamed Whole q u (some (ev, u')) =
      (n : ℕ) × (n ≤ length q)
      × (wire u' ≡ wire u ++ take n q)
      × (ev ≡ session_timeout → Whole → n ≡ length q)

  pub Streamed-mono :
      (A B : Type 0) (q : Bytes) (u : U) (r : Option (Event × U))
      → (A → B)
      → Streamed B q u r
      → Streamed A q u r
  Streamed-mono A B q u none f s = s
  Streamed-mono A B q u (some (ev, u')) f (n, le, e, all) = (n, le, e, λ t a. all t (f a))

  pub Streamed-from :
      (A : Type 0) (q : Bytes) (u v : U) (r : Option (Event × U))
      → wire v ≡ wire u
      → Streamed A q v r
      → Streamed A q u r
  Streamed-from A q u v none w s = s
  Streamed-from A q u v (some (ev, u')) w (n, le, e, all) =
      (n, le, e ∙ ap (λ x. x ++ take n q) w, all)

  -- Nothing is sent, and the session ends with another event than its end.
  pub stopped :
      (A : Type 0) (q : Bytes) (u v : U) (ev : Event)
      → wire v ≡ wire u
      → (ev ≡ session_timeout → ⊥)
      → Streamed A q u (some (ev, v))
  stopped A q u v ev w never =
      (0, omega arith, w ∙ sym (append-nil (wire u)), λ t a. absurd (never t))

  pub after_send-Streamed :
      (A : Type 0) (p q : Bytes) (u : U) (go_on : U → Option (Event × U)) (r : Option (Bool × U))
      → SentOf p u r
      → ((v : U) → ((xs : Bytes) → Left u xs → Left v xs) → Streamed A q v (go_on v))
      → Streamed A (p ++ q) u (after_send go_on r)
  unfolding after_send
  after_send-Streamed A p q u go_on none s h = s
  after_send-Streamed A p q u go_on (some (false, v)) (n, le, e) h = (
    n,
    omega (arith, length-append p q),
    e ∙ sym (ap (λ x. wire u ++ x) (take-append_le n p q le)),
    λ t a. cc,
  )
  after_send-Streamed A p q u go_on (some (true, v)) (e, l) h = longer (go_on v) (h v l)
    where
      longer : (r : Option (Event × U)) → Streamed A q v r → Streamed A (p ++ q) u r
      longer none s = s
      longer (some (ev, v')) (n, le, e', all) = (
        length p + n,
        omega (arith, length-append p q),
        e'
            ∙ (ap (λ x. x ++ take n q) e
                ∙ (append_assoc (wire u) p (take n q)
                    ∙ sym (ap (λ x. wire u ++ x) (take-append_ge n p q)))),
        λ t a. omega (arith, length-append p q, all t a),
      )

  SentOf-on :
      (k : ℕ) (p : Bytes) (u v : U) (r : Option (Bool × U))
      → (k ≤ length p) × (wire v ≡ wire u ++ take k p)
      → ((xs : Bytes) → Left u xs → Left v xs)
      → SentOf (drop k p) v r
      → SentOf p u r
  SentOf-on k p u v none t l s = s
  SentOf-on k p u v (some (true, u')) (le, e) l (w, l') = (
    w
        ∙ (ap (λ x. x ++ drop k p) e
            ∙ (append_assoc (wire u) (take k p) (drop k p)
                ∙ ap (λ x. wire u ++ x) (take-append-drop k p))),
    λ xs a. l' xs (l xs a),
  )
  SentOf-on k p u v (some (false, u')) (le, e) l (n, le', w) = (
    k + n,
    omega (arith, length-drop k p),
    w
        ∙ (ap (λ x. x ++ take n (drop k p)) e
            ∙ (append_assoc (wire u) (take k p) (take n (drop k p))
                ∙ ap (λ x. wire u ++ x) (take-take-drop k n p))),
  )

module _ {U : Type 0} (cfg : StreamClientCfg) (tr : StreamTransport U) (src : PcmSource U)
    (scratch_len : ℕ) (wire : U → Bytes) (Left : U → Bytes → Type 0)
    (c : Carries tr src wire Left cfg.frame_bytes) where
  send_step :
      (n : ℤ) (fuel : ℕ) (u v : U) (p : Bytes)
      → Took p n (wire u) (wire v)
      → ((xs : Bytes) → Left u xs → Left v xs)
      → ((q : Bytes) → SentOf wire Left q v (send_all tr fuel v q))
      → SentOf wire Left p u
          (elim n [ negsuc _ ↦ some (false, v) | pos k ↦ send_all tr fuel v (drop k p) ])
  send_step (pos k) fuel u v p t l h = SentOf-on wire Left k p u v _ t l (h (drop k p))
  send_step (negsuc k) fuel u v p t l h = t

  pub send_all-SentOf : (fuel : ℕ) (u : U) (p : Bytes) → SentOf wire Left p u (send_all tr fuel u p)
  unfolding send_all
  send_all-SentOf fuel u [] = (sym (append-nil (wire u)), λ xs a. a)
  send_all-SentOf zero u (x ∷ p) = _
  send_all-SentOf (suc fuel) u (x ∷ p) =
      send_step (tr.send u (x ∷ p)).0 fuel u (tr.send u (x ∷ p)).1 (x ∷ p) (c.sends u (x ∷ p))
        (c.sends_only u (x ∷ p)) (λ q. send_all-SentOf fuel (tr.send u (x ∷ p)).1 q)

  pub send_encoded-SentOf :
      (fuel : ℕ) (m : ℕ × Bytes) (u : U)
      → SentOf wire Left (take m.0 m.1) u (send_encoded tr fuel m u)
  unfolding send_encoded
  send_encoded-SentOf fuel (len, out) u = elim (Bool-cases (len == 0)) [
    | inl e ↦ rw e (0, omega arith, sym (append-nil (wire u)))
    | inr e ↦ rw e (send_all-SentOf fuel u (take len out))
  ]
