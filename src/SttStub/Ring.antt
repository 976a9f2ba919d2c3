-- ===== src/SttStub/Ring.antt =====
-- The ring of finished transcripts of server/src/stt_stub.c, against a queue.
use esp32s3_inmp.Base.{
  true, false, ap, ◌∙◌, ℕ, zero, suc, ◌+◌, ◌-◌, ◌%◌, ◌^◌, ◌≤◌, ◌<◌, ◌≡◌, refl, List, Bytes, [], ◌∷◌,
  ◌++◌, Option, none, some, if◌then◌else◌, ◌==◌, leb, sub64, ◌⊎◌, inl, inr, Bool-cases, length,
  take, get_or, arith, sym, take_all, length-blit,
}
use esp32s3_inmp.Base.{ℤ}
use esp32s3_inmp.SttStub.{
  SttStub, max_pending, transcript_max, push_pending, end_utterance, feed_sample, stub_feed,
  stub_poll,
}

-- The indices stay in the ring, and no script is taken twice or beyond the end.
pub record IsValid (s : SttStub) : Type 0 where
  pub slots : length s.pending ≡ max_pending
  pub head_in : s.pend_head < max_pending
  pub tail_in : s.pend_tail < max_pending
  pub scripts_in : s.next_script ≤ length s.scripts
  pub few_scripts : length s.scripts < 2 ^ 64

-- The slots from `h` on, `n` of them.
slots_from : List Bytes → ℕ → ℕ → List Bytes
slots_from pending h zero = []
slots_from pending h (suc n) = get_or pending h [] ∷ slots_from pending ((h + 1) % max_pending) n

-- The transcripts that wait, oldest first.
pub queued : SttStub → List Bytes
unfolding slots_from
queued s =
    slots_from s.pending s.pend_head ((s.pend_tail + max_pending - s.pend_head) % max_pending)

abbrev ring_at : SttStub → List Bytes → ℕ → ℕ → SttStub
ring_at s p h t = record s { pending = p; pend_head = h; pend_tail = t }

abbrev pub enqueue : List Bytes → Bytes → List Bytes
enqueue q text = if length q == 3 then q else q ++ (take (transcript_max - 1) text ∷ [])

push_at :
    (s : SttStub) (text : Bytes) (p : List Bytes) (h t : ℕ)
    → length p ≡ max_pending
    → h < max_pending
    → t < max_pending
    → queued (push_pending (ring_at s p h t) text) ≡ enqueue (queued (ring_at s p h t)) text
unfolding queued push_pending
push_at s text [] h t e hh ht = absurd (omega arith)
push_at s text (a ∷ []) h t e hh ht = absurd (omega arith)
push_at s text (a ∷ b ∷ []) h t e hh ht = absurd (omega arith)
push_at s text (a ∷ b ∷ c ∷ []) h t e hh ht = absurd (omega arith)
push_at s text (a ∷ b ∷ c ∷ d ∷ []) zero zero e hh ht = refl
push_at s text (a ∷ b ∷ c ∷ d ∷ []) zero (suc zero) e hh ht = refl
push_at s text (a ∷ b ∷ c ∷ d ∷ []) zero (suc (suc zero)) e hh ht = refl
push_at s text (a ∷ b ∷ c ∷ d ∷ []) zero (suc (suc (suc zero))) e hh ht = refl
push_at s text (a ∷ b ∷ c ∷ d ∷ []) zero (suc (suc (suc (suc n)))) e hh ht = absurd (omega arith)
push_at s text (a ∷ b ∷ c ∷ d ∷ []) (suc zero) zero e hh ht = refl
push_at s text (a ∷ b ∷ c ∷ d ∷ []) (suc zero) (suc zero) e hh ht = refl
push_at s text (a ∷ b ∷ c ∷ d ∷ []) (suc zero) (suc (suc zero)) e hh ht = refl
push_at s text (a ∷ b ∷ c ∷ d ∷ []) (suc zero) (suc (suc (suc zero))) e hh ht = refl
push_at s text (a ∷ b ∷ c ∷ d ∷ []) (suc zero) (suc (suc (suc (suc n)))) e hh ht =
    absurd (omega arith)
push_at s text (a ∷ b ∷ c ∷ d ∷ []) (suc (suc zero)) zero e hh ht = refl
push_at s text (a ∷ b ∷ c ∷ d ∷ []) (suc (suc zero)) (suc zero) e hh ht = refl
push_at s text (a ∷ b ∷ c ∷ d ∷ []) (suc (suc zero)) (suc (suc zero)) e hh ht = refl
push_at s text (a ∷ b ∷ c ∷ d ∷ []) (suc (suc zero)) (suc (suc (suc zero))) e hh ht = refl
push_at s text (a ∷ b ∷ c ∷ d ∷ []) (suc (suc zero)) (suc (suc (suc (suc n)))) e hh ht =
    absurd (omega arith)
push_at s text (a ∷ b ∷ c ∷ d ∷ []) (suc (suc (suc zero))) zero e hh ht = refl
push_at s text (a ∷ b ∷ c ∷ d ∷ []) (suc (suc (suc zero))) (suc zero) e hh ht = refl
push_at s text (a ∷ b ∷ c ∷ d ∷ []) (suc (suc (suc zero))) (suc (suc zero)) e hh ht = refl
push_at s text (a ∷ b ∷ c ∷ d ∷ []) (suc (suc (suc zero))) (suc (suc (suc zero))) e hh ht = refl
push_at s text (a ∷ b ∷ c ∷ d ∷ []) (suc (suc (suc zero))) (suc (suc (suc (suc n)))) e hh ht =
    absurd (omega arith)
push_at s text (a ∷ b ∷ c ∷ d ∷ []) (suc (suc (suc (suc n)))) t e hh ht = absurd (omega arith)
push_at s text (a ∷ b ∷ c ∷ d ∷ x ∷ p) h t e hh ht = absurd (omega arith)

-- What a poll hands out of a queue, cut to the caller's buffer.
abbrev pub cut_to : ℕ → Bytes → Bytes
cut_to cap text = if leb cap (length text) then take (sub64 cap 1) text else text

abbrev pub dequeue : List Bytes → ℕ → Option Bytes × List Bytes
dequeue [] cap = (none, [])
dequeue (text ∷ q) cap = (some (cut_to cap text), q)

poll_at :
    (s : SttStub) (cap : ℕ) (p : List Bytes) (h t : ℕ)
    → length p ≡ max_pending
    → h < max_pending
    → t < max_pending
    → let (out, s') = stub_poll (ring_at s p h t) cap in
      (out, queued s') ≡ dequeue (queued (ring_at s p h t)) cap
unfolding queued stub_poll
poll_at s cap [] h t e hh ht = absurd (omega arith)
poll_at s cap (a ∷ []) h t e hh ht = absurd (omega arith)
poll_at s cap (a ∷ b ∷ []) h t e hh ht = absurd (omega arith)
poll_at s cap (a ∷ b ∷ c ∷ []) h t e hh ht = absurd (omega arith)
poll_at s cap (a ∷ b ∷ c ∷ d ∷ []) zero zero e hh ht = refl
poll_at s cap (a ∷ b ∷ c ∷ d ∷ []) zero (suc zero) e hh ht = refl
poll_at s cap (a ∷ b ∷ c ∷ d ∷ []) zero (suc (suc zero)) e hh ht = refl
poll_at s cap (a ∷ b ∷ c ∷ d ∷ []) zero (suc (suc (suc zero))) e hh ht = refl
poll_at s cap (a ∷ b ∷ c ∷ d ∷ []) zero (suc (suc (suc (suc n)))) e hh ht = absurd (omega arith)
poll_at s cap (a ∷ b ∷ c ∷ d ∷ []) (suc zero) zero e hh ht = refl
poll_at s cap (a ∷ b ∷ c ∷ d ∷ []) (suc zero) (suc zero) e hh ht = refl
poll_at s cap (a ∷ b ∷ c ∷ d ∷ []) (suc zero) (suc (suc zero)) e hh ht = refl
poll_at s cap (a ∷ b ∷ c ∷ d ∷ []) (suc zero) (suc (suc (suc zero))) e hh ht = refl
poll_at s cap (a ∷ b ∷ c ∷ d ∷ []) (suc zero) (suc (suc (suc (suc n)))) e hh ht =
    absurd (omega arith)
poll_at s cap (a ∷ b ∷ c ∷ d ∷ []) (suc (suc zero)) zero e hh ht = refl
poll_at s cap (a ∷ b ∷ c ∷ d ∷ []) (suc (suc zero)) (suc zero) e hh ht = refl
poll_at s cap (a ∷ b ∷ c ∷ d ∷ []) (suc (suc zero)) (suc (suc zero)) e hh ht = refl
poll_at s cap (a ∷ b ∷ c ∷ d ∷ []) (suc (suc zero)) (suc (suc (suc zero))) e hh ht = refl
poll_at s cap (a ∷ b ∷ c ∷ d ∷ []) (suc (suc zero)) (suc (suc (suc (suc n)))) e hh ht =
    absurd (omega arith)
poll_at s cap (a ∷ b ∷ c ∷ d ∷ []) (suc (suc (suc zero))) zero e hh ht = refl
poll_at s cap (a ∷ b ∷ c ∷ d ∷ []) (suc (suc (suc zero))) (suc zero) e hh ht = refl
poll_at s cap (a ∷ b ∷ c ∷ d ∷ []) (suc (suc (suc zero))) (suc (suc zero)) e hh ht = refl
poll_at s cap (a ∷ b ∷ c ∷ d ∷ []) (suc (suc (suc zero))) (suc (suc (suc zero))) e hh ht = refl
poll_at s cap (a ∷ b ∷ c ∷ d ∷ []) (suc (suc (suc zero))) (suc (suc (suc (suc n)))) e hh ht =
    absurd (omega arith)
poll_at s cap (a ∷ b ∷ c ∷ d ∷ []) (suc (suc (suc (suc n)))) t e hh ht = absurd (omega arith)
poll_at s cap (a ∷ b ∷ c ∷ d ∷ x ∷ p) h t e hh ht = absurd (omega arith)

-- A finished transcript goes to the end of the queue, cut to 127 bytes, unless three wait already: then
-- it is dropped.
pub push_pending_lem :
    (s : SttStub) (text : Bytes)
    → IsValid s
    → queued (push_pending s text) ≡ enqueue (queued s) text
push_pending_lem s text v =
    push_at s text s.pending s.pend_head s.pend_tail v.slots v.head_in v.tail_in

-- What `cap - 1` leaves of a text, in a buffer of `cap` bytes with its NUL.
sub64_one : (cap : ℕ) → 0 < cap → cap < 2 ^ 64 → sub64 cap 1 ≡ cap - 1
sub64_one cap some_ small = omega arith

cut_fits : (cap : ℕ) (text : Bytes) → 0 < cap → cap < 2 ^ 64 → cut_to cap text ≡ take (cap - 1) text
cut_fits cap text some_ small = elim (Bool-cases (leb cap (length text))) [
  | inl e ↦ rw (e, sub64_one cap some_ small)
  | inr e ↦ rw e (sym (take_all (cap - 1) text (ground (arith, e))))
]

polled_rest :
    (s : SttStub) (cap : ℕ)
    → (s.pend_head == s.pend_tail) ≡ false
    → (stub_poll s cap).1 ≡ record s { pend_head = (s.pend_head + 1) % max_pending }
unfolding stub_poll
polled_rest s cap e = rw e

queued_none : (s : SttStub) → (s.pend_head == s.pend_tail) ≡ true → queued s ≡ []
unfolding queued slots_from
queued_none s e =
    ap (slots_from s.pending s.pend_head)
      {x = (s.pend_tail + max_pending - s.pend_head) % max_pending} {y = 0} (ground (arith, e))

polled_none :
    (s : SttStub) (cap : ℕ) → (s.pend_head == s.pend_tail) ≡ true → stub_poll s cap ≡ (none, s)
unfolding stub_poll
polled_none s cap e = rw e

polled_some :
    (s : SttStub) (cap : ℕ) → (s.pend_head == s.pend_tail) ≡ false → (stub_poll s cap).0 ≡ none → ⊥
unfolding stub_poll
polled_some s cap ne = rw ne (λ z. cc)

-- What a poll of a queue hands out, when there is something to hand out.
polled :
    (s : SttStub) (cap : ℕ) (queue : List Bytes)
    → queued s ≡ queue
    → (s.pend_head == s.pend_tail) ≡ false
    → 0 < cap
    → cap < 2 ^ 64
    → ((stub_poll s cap).0, queued (stub_poll s cap).1) ≡ dequeue queue cap
    → (text : Bytes) × (q : List Bytes) × (queue ≡ text ∷ q)
      × ((stub_poll s cap).0 ≡ some (take (cap - 1) text))
      × (queued (stub_poll s cap).1 ≡ q)
      × ((stub_poll s cap).1 ≡ record s { pend_head = (s.pend_head + 1) % max_pending })
polled s cap [] e ne some_ small d = absurd (polled_some s cap ne (ap (λ x. x.0) d))
polled s cap (text ∷ q) e ne some_ small d = (
  text,
  q,
  refl,
  ap (λ x. x.0) d ∙ ap some (cut_fits cap text some_ small),
  ap (λ x. x.1) d,
  polled_rest s cap ne,
)

-- A poll with a queue that is empty answers 0 and changes nothing. Otherwise it takes the oldest transcript
-- off the queue and hands out of it the bytes for which the caller's buffer has room beside the NUL; it
-- moves the head of the ring to the next slot, and changes nothing else. The buffer must have room for the
-- NUL.
pub stub_poll_lem :
    (s : SttStub) (cap : ℕ)
    → IsValid s
    → 0 < cap
    → cap < 2 ^ 64
    → ((queued s ≡ []) × (stub_poll s cap ≡ (none, s)))
      ⊎ ((text : Bytes) × (q : List Bytes) × (queued s ≡ text ∷ q)
          × ((stub_poll s cap).0 ≡ some (take (cap - 1) text))
          × (queued (stub_poll s cap).1 ≡ q)
          × ((stub_poll s cap).1 ≡ record s { pend_head = (s.pend_head + 1) % max_pending }))
stub_poll_lem s cap v some_ small = elim (Bool-cases (s.pend_head == s.pend_tail)) [
  | inl e ↦ inl (queued_none s e, polled_none s cap e)
  | inr e ↦ inr (
      polled s cap (queued s) refl e some_ small
        (poll_at s cap s.pending s.pend_head s.pend_tail v.slots v.head_in v.tail_in))
]

push_pending-IsValid : (s : SttStub) (text : Bytes) → IsValid s → IsValid (push_pending s text)
unfolding push_pending
push_pending-IsValid s text v =
    ground (arith, length-blit s.pending s.pend_tail (take (transcript_max - 1) text ∷ []))

end_utterance-IsValid : (s : SttStub) → IsValid s → IsValid (end_utterance s)
unfolding end_utterance push_pending
end_utterance-IsValid s v = ground (
  arith,
  length-blit s.pending s.pend_tail
      (take (transcript_max - 1) (get_or s.scripts s.next_script []) ∷ []),
)

feed_sample-IsValid : (s : SttStub) (x : ℤ) → IsValid s → IsValid (feed_sample s x)
unfolding feed_sample
feed_sample-IsValid s x v = ground (
  arith,
  end_utterance-IsValid (record s { silence_run = (s.silence_run + 1) % 2 ^ 64 })
      (record {
        slots = v.slots;
        head_in = v.head_in;
        tail_in = v.tail_in;
        scripts_in = v.scripts_in;
        few_scripts = v.few_scripts;
      }),
)

-- Feeding any samples keeps the ring and the script counter in range.
pub stub_feed-IsValid : (pcm : List ℤ) (s : SttStub) → IsValid s → IsValid (stub_feed s pcm)
unfolding stub_feed
stub_feed-IsValid [] s v = v
stub_feed-IsValid (x ∷ pcm) s v =
    stub_feed-IsValid pcm (feed_sample s x) (feed_sample-IsValid s x v)
