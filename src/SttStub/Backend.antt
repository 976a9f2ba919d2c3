-- ===== src/SttStub/Backend.antt =====
-- The stub as a backend of the session: `stt_stub_backend`, and what a session asks of its backend.
use esp32s3_inmp.Base.{
  ℤ, ℕ, ◌+◌, ◌-◌, ◌%◌, ◌^◌, ◌≤◌, ◌<◌, ◌≡◌, refl, List, Bytes, [], ◌∷◌, ◌++◌, some, length, arith,
}
use esp32s3_inmp.Session.{SttBackend, Session, session_on_pcm}
use esp32s3_inmp.Session.Blocks.{FeedSplits}
use esp32s3_inmp.Session.Pcm.{Drains, InStep, InStep-IsKept}
use esp32s3_inmp.Session.Backend.{IsBackend, session_on_backend}
use esp32s3_inmp.SttStub.{
  SttStub, max_pending, feed_sample, stub_reset, stub_feed, stub_poll, stt_stub_init,
}
use esp32s3_inmp.SttStub.Ring.{IsValid, stub_feed-IsValid}

abbrev pub stt_stub_backend : SttBackend SttStub
stt_stub_backend = record { reset = some stub_reset; feed = some stub_feed; poll = some stub_poll }

stub_feed-append :
    (s : SttStub) (xs ys : List ℤ) → stub_feed s (xs ++ ys) ≡ stub_feed (stub_feed s xs) ys
unfolding stub_feed
stub_feed-append s [] ys = refl
stub_feed-append s (x ∷ xs) ys = stub_feed-append (feed_sample s x) xs ys

stub-FeedSplits : FeedSplits (stt_stub_backend).feed
unfolding stub_feed
stub-FeedSplits = (λ s. refl, stub_feed-append)

-- How many transcripts wait in the ring.
abbrev waiting_in : SttStub → ℕ
waiting_in s = (s.pend_tail + max_pending - s.pend_head) % max_pending

stub-Drains : Drains IsValid waiting_in (stt_stub_backend).poll
unfolding stub_poll
stub-Drains s cap_ v = (
  record {
    slots = ground (arith, v.slots);
    head_in = ground (arith, v.head_in);
    tail_in = ground (arith, v.tail_in);
    scripts_in = ground (arith, v.scripts_in);
    few_scripts = ground (arith, v.few_scripts);
  },
  λ text e. ground (arith, v.head_in, v.tail_in),
)

stub_reset-IsValid : (s : SttStub) → IsValid s → IsValid (stub_reset s)
unfolding stub_reset
stub_reset-IsValid s v = record {
  slots = v.slots;
  head_in = omega arith;
  tail_in = omega arith;
  scripts_in = omega arith;
  few_scripts = v.few_scripts;
}

-- A new stub is in a good state.
pub stt_stub_init-IsValid :
    (scripts : List Bytes) (thresh hang shortest : ℕ)
    → length scripts < 2 ^ 64
    → IsValid (stt_stub_init scripts thresh hang shortest)
unfolding stt_stub_init
stt_stub_init-IsValid scripts thresh hang shortest few = record {
  slots = refl;
  head_in = omega arith;
  tail_in = omega arith;
  scripts_in = omega arith;
  few_scripts = few;
}

-- The stub obeys the laws of a backend.
pub stub-IsBackend : IsBackend stt_stub_backend IsValid max_pending
stub-IsBackend = record {
  waits = waiting_in;
  splits = stub-FeedSplits;
  drains = stub-Drains;
  reset_good = stub_reset-IsValid;
  fed_good = λ s pcm v. stub_feed-IsValid pcm s v;
  few = λ s v. omega arith;
}

-- With the stub as its backend, a session handles any payload and returns: fuel for the bytes and for
-- the four slots of the ring is enough, and the two counts of commands still agree while the session is
-- not cut. The stub must be in a valid state.
pub session_on_stub_lem :
    (fuel : ℕ) (s : Session SttStub) (bytes : Bytes) (t : ℕ)
    → IsValid s.ctx
    → length bytes < 2 ^ 64
    → length bytes + 4 ≤ fuel
    → InStep s
    → (s' : Session SttStub) × (session_on_pcm stt_stub_backend fuel s bytes t ≡ some s')
      × InStep s'
session_on_stub_lem fuel s bytes t v small le w =
    let (s', r, w', g) =
      session_on_backend stt_stub_backend IsValid max_pending stub-IsBackend InStep InStep-IsKept
        fuel s bytes t v small (omega arith) (omega arith) w in
    (s', r, w')
