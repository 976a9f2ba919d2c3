-- ===== src/Session/Backend.antt =====
-- What a session asks of its speech-to-text backend.
use esp32s3_inmp.Base.{ℤ, ℕ, ◌/◌, ◌≤◌, ◌<◌, ◌^◌, ◌≡◌, List, Bytes, some, arith, length}
use esp32s3_inmp.Session.{SttBackend, Session, call_reset, call_feed, decode_le16, session_on_pcm}
use esp32s3_inmp.Session.Blocks.{FeedSplits}
use esp32s3_inmp.Session.Pcm.{Drains, IsKept, session_on_pcm-Kept}

-- The laws of a backend whose good states are `good`, with fewer than `bound` transcripts waiting: it does
-- not mind how samples are cut into blocks, it runs out of transcripts, and it stays in its good states.
pub record IsBackend {C : Type 0} (stt : SttBackend C) (good : C → Type 0) (bound : ℕ)
    : Type 0 where
  pub waits : C → ℕ
  pub splits : FeedSplits stt.feed
  pub drains : Drains good waits stt.poll
  pub reset_good : (c : C) → good c → good (call_reset stt.reset c)
  pub fed_good : (c : C) (pcm : List ℤ) → good c → good (call_feed stt.feed c pcm)
  pub few : (c : C) → good c → waits c < bound

module _ {C : Type 0} (stt : SttBackend C) (good : C → Type 0) (bound : ℕ)
    (b : IsBackend stt good bound) (Kept : Session C → Type 0) (k : IsKept Kept) where
  -- Handling a payload returns, with fuel for its bytes and for the transcripts that can wait.
  pub session_on_backend :
      (fuel : ℕ) (s : Session C) (payload : Bytes) (t : ℕ)
      → good s.ctx
      → length payload < 2 ^ 64
      → length payload ≤ fuel
      → bound ≤ fuel
      → Kept s
      → (s' : Session C) × (session_on_pcm stt fuel s payload t ≡ some s') × Kept s' × good s'.ctx
  session_on_backend fuel s payload t g small le le' v =
      let pcm : List ℤ = decode_le16 (length payload / 2) payload in
      let g' : good (call_feed stt.feed s.ctx pcm) = b.fed_good s.ctx pcm g in
      session_on_pcm-Kept Kept k stt fuel s payload t good b.waits b.splits b.drains g' small le
        (omega (arith, b.few (call_feed stt.feed s.ctx pcm) g')) v
