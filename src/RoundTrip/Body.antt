-- ===== src/RoundTrip/Body.antt =====
-- The body of a session: any sequence of chunks, and its end.
use esp32s3_inmp.Base.{
  none, ℕ, ◌≤◌, ◌≡◌, sym, ◌∙◌, ap, true, List, Bytes, [], ◌∷◌, ◌++◌, some, arith, append-nil,
  append_assoc,
}
use esp32s3_inmp.StreamProto.{stream_proto_encode_chunk, stream_proto_encode_final, final_chunk}
use esp32s3_inmp.HttpIngest.{HttpIngest, Callbacks, call_payload, done, chunk_size, chunk_data}
use esp32s3_inmp.HttpIngest.Feed.{SplitsFor, Ready, pushes}
use esp32s3_inmp.HttpIngest.Feed.Cuts.{joined}
use esp32s3_inmp.RoundTrip.Chunk.{
  Fits, AtChunk, encode_chunk_lem, push_chunk, push_final, call_payload-AtChunk,
}

-- What a client with a buffer of `cap` bytes sends for the payloads: each encoded, then the end.
unfoldable pub stream : ℕ → List Bytes → Bytes
stream cap [] = (stream_proto_encode_final (some cap)).1
stream cap (p ∷ ps) = (stream_proto_encode_chunk (some cap) p).1 ++ stream cap ps

abbrev pub AllFit : ℕ → List Bytes → Type 0
AllFit cap [] = Unit {0}
AllFit cap (p ∷ ps) = Fits cap p × AllFit cap ps

pub encode_final_lem : (cap : ℕ) → 5 ≤ cap → stream_proto_encode_final (some cap) ≡ (5, final_chunk)
unfolding stream_proto_encode_final
encode_final_lem cap le = ground arith

module _ {U : Type 0} (cb : Callbacks U) where
  -- The parser after the payloads, each handed to the callback.
  pub payloads : List Bytes → HttpIngest U → HttpIngest U
  payloads [] ing = ing
  payloads (p ∷ ps) ing = payloads ps (call_payload cb cb.on_payload p ing)

  pub push_stream :
      (ps : List Bytes) (cap : ℕ) (ing : HttpIngest U)
      → SplitsFor cb.on_payload
      → 5 ≤ cap
      → AllFit cap ps
      → AtChunk ing
      → pushes cb ing (stream cap ps) ≡ record (payloads ps ing) { complete = true; state = done }
  unfolding stream payloads pushes
  push_stream [] cap ing s le f a =
      ap (λ r. pushes cb ing r.1) (encode_final_lem cap le) ∙ push_final cb ing [] a
  push_stream (p ∷ ps) cap ing s le (f, fs) a =
      ap (λ r. pushes cb ing (r.1 ++ stream cap ps)) (encode_chunk_lem cap p f)
      ∙ (push_chunk cb ing p (stream cap ps) s f.some_payload f.small a
          ∙ push_stream ps cap (call_payload cb cb.on_payload p ing) s le fs
              (call_payload-AtChunk cb cb.on_payload ing p a))

  pub AtChunk-Ready : (ing : HttpIngest U) → AtChunk ing → Ready ing
  AtChunk-Ready ing a st = absurd (apart (sym a.at_size ∙ st))
    where
      apart : chunk_size ≡ chunk_data → ⊥
      apart e = cc

-- A payload callback that keeps what it is handed: the bytes, in the order of the calls.
abbrev pub keep_spans : Callbacks Bytes
keep_spans = record { on_payload = some (λ u span. u ++ span); on_header = none }

pub keep_spans-SplitsFor : SplitsFor keep_spans.on_payload
keep_spans-SplitsFor u a b = sym (append_assoc u a b)

payloads-keep_spans :
    (ps : List Bytes) (ing : HttpIngest Bytes)
    → payloads keep_spans ps ing ≡ record ing { user = ing.user ++ joined ps }
unfolding payloads
payloads-keep_spans [] ing = λ i. record ing { user = sym (append-nil ing.user) i }
payloads-keep_spans (p ∷ ps) ing =
    payloads-keep_spans ps (record ing { user = ing.user ++ p })
    ∙ ap (λ u. record ing { user = u }) (append_assoc ing.user p (joined ps))

pub pushes-stream :
    (ps : List Bytes) (cap : ℕ) (ing : HttpIngest Bytes)
    → 5 ≤ cap
    → AllFit cap ps
    → AtChunk ing
    → pushes keep_spans ing (stream cap ps)
      ≡ record ing { user = ing.user ++ joined ps; complete = true; state = done }
pushes-stream ps cap ing le f a =
    push_stream keep_spans ps cap ing keep_spans-SplitsFor le f a
    ∙ ap {A = HttpIngest Bytes} (λ i. record i { complete = true; state = done })
        (payloads-keep_spans ps ing)
