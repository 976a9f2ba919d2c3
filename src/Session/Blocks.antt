-- ===== src/Session/Blocks.antt =====
-- The loop over blocks of `session_on_pcm`, and what the backend hears.
use esp32s3_inmp.Base.{
  ℕ, zero, suc, ◌+◌, ◌-◌, ◌*◌, ◌^◌, ◌≤◌, ◌<◌, ◌≡◌, refl, sym, ap, ◌∙◌, List, Bytes, [], ◌++◌,
  Option, none, some, arith, length, drop, length-drop, ltb, if◌then◌else◌,
}
use esp32s3_inmp.Base.{ℤ}
use esp32s3_inmp.Session.{
  SttBackend, Energy, decode_le16, decode_block, call_feed, block_step, block_loop,
}
use esp32s3_inmp.Session.Decode.{length-decode, decode-add}

-- The feed callback takes samples in pieces as it takes them in one.
abbrev pub FeedSplits : {C : Type 0} → Option (C → List ℤ → C) → Type 0
FeedSplits none = Unit {0}
FeedSplits {C} (some f) =
    ((c : C) → f c [] ≡ c) × ((c : C) (xs ys : List ℤ) → f c (xs ++ ys) ≡ f (f c xs) ys)

feed_nil : {C : Type 0} (o : Option (C → List ℤ → C)) (c : C) → FeedSplits o → call_feed o c [] ≡ c
feed_nil none c s = refl
feed_nil (some f) c s = s.0 c

feed_append :
    {C : Type 0} (o : Option (C → List ℤ → C)) (c : C) (xs ys : List ℤ)
    → FeedSplits o
    → call_feed o (call_feed o c xs) ys ≡ call_feed o c (xs ++ ys)
feed_append none c xs ys s = refl
feed_append (some f) c xs ys s = sym (s.1 c xs ys)

module _ {C : Type 0} (stt : SttBackend C) where
  -- What the loop over blocks comes to.
  record Heard (left : ℕ) (bytes : Bytes) (e : Energy C) (r : Option (Energy C)) : Type 0 where
    out : Energy C
    returns : r ≡ some out
    counted : out.energy_n ≡ e.energy_n + left
    heard : out.ctx ≡ call_feed stt.feed e.ctx (decode_le16 left bytes)

  block_n : (left : ℕ) → ℕ
  block_n left = if ltb decode_block left then decode_block else left

  block_n_bounds : (left : ℕ) → 0 < left → (0 < block_n left) × (block_n left ≤ left)
  unfolding block_n
  block_n_bounds left h = ground arith

  block_step_n :
      (e : Energy C) (block : List ℤ)
      → e.energy_n + length block < 2 ^ 64
      → (block_step stt e block).energy_n ≡ e.energy_n + length block
  unfolding block_step
  block_step_n e block h = omega arith

  -- One block, and then the rest.
  Heard-step :
      (left n : ℕ) (bytes : Bytes) (e : Energy C) (r : Option (Energy C))
      → FeedSplits stt.feed
      → n ≤ left
      → 2 * left ≤ length bytes
      → e.energy_n + left < 2 ^ 64
      → Heard (left - n) (drop (2 * n) bytes) (block_step stt e (decode_le16 n bytes)) r
      → Heard left bytes e r
  unfolding block_step
  Heard-step left n bytes e r s le room small h = record {
    out = h.out;
    returns = h.returns;
    counted = omega (
      arith,
      h.counted,
      length-decode n bytes (omega arith),
      block_step_n e (decode_le16 n bytes) (omega (arith, length-decode n bytes (omega arith))),
    );
    heard =
        h.heard
        ∙ (feed_append stt.feed e.ctx (decode_le16 n bytes)
              (decode_le16 (left - n) (drop (2 * n) bytes)) s
            ∙ ap (call_feed stt.feed e.ctx) (
                sym (decode-add n (left - n) bytes (omega arith))
                ∙ ap (λ k. decode_le16 k bytes) {x = n + (left - n)} {y = left} (omega arith)));
  }

  block_loop-Heard :
      (fuel left : ℕ) (bytes : Bytes) (e : Energy C)
      → FeedSplits stt.feed
      → left ≤ fuel
      → 2 * left ≤ length bytes
      → e.energy_n + left < 2 ^ 64
      → Heard left bytes e (block_loop stt fuel left bytes e)
  unfolding block_loop block_n
  block_loop-Heard fuel zero bytes e s le room small = record {
    out = e;
    returns = refl;
    counted = omega arith;
    heard = sym (feed_nil stt.feed e.ctx s);
  }
  block_loop-Heard zero (suc left) bytes e s le room small = absurd (omega arith)
  block_loop-Heard (suc fuel) (suc left) bytes e s le room small =
      let n : ℕ = block_n (suc left) in
      let b = block_n_bounds (suc left) (omega arith) in
      Heard-step (suc left) n bytes e _ s b.1 room small (
        block_loop-Heard fuel (suc left - n) (drop (2 * n) bytes)
          (block_step stt e (decode_le16 n bytes)) s (omega (arith, b))
          (omega (arith, b, length-drop (2 * n) bytes))
          (omega (
            arith,
            b,
            length-decode n bytes (omega (arith, b)),
            block_step_n e (decode_le16 n bytes)
                (omega (arith, b, length-decode n bytes (omega (arith, b)))),
          )))

  -- The loop over blocks returns, with as much fuel as there are samples; the backend has then been fed
  -- exactly the decoded samples of the whole payload, in order, whatever the blocks were, and all of them
  -- are counted. The backend must not mind how its samples are cut into blocks.
  pub block_loop_lem :
      (fuel left : ℕ) (bytes : Bytes) (e : Energy C)
      → FeedSplits stt.feed
      → left ≤ fuel
      → 2 * left ≤ length bytes
      → e.energy_n + left < 2 ^ 64
      → (out : Energy C) × (block_loop stt fuel left bytes e ≡ some out)
        × (out.energy_n ≡ e.energy_n + left)
        × (out.ctx ≡ call_feed stt.feed e.ctx (decode_le16 left bytes))
  block_loop_lem fuel left bytes e s le room small =
      let h = block_loop-Heard fuel left bytes e s le room small in
      (h.out, h.returns, h.counted, h.heard)
