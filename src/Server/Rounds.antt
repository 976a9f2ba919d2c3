-- ===== src/Server/Rounds.antt =====
-- One round of the loop of `handle_conn`: how it leaves the connection.
use esp32s3_inmp.Base.{
  ℕ, ◌≤◌, ◌<◌, ◌^◌, ◌≡◌, refl, Bool, true, false, Bytes, [], ◌∷◌, Option, none, some, arith, length,
  if◌then◌else◌, Bool-cases, inl, inr,
}
use esp32s3_inmp.Debounce.{Debounce, cut, debounce_should_cut}
use esp32s3_inmp.HttpIngest.{HttpIngest, http_ingest_feed}
use esp32s3_inmp.HttpIngest.Feed.{Ready}
use esp32s3_inmp.HttpIngest.Feed.Keeps.{KeptBy, FeedKeeps, http_ingest_feed-FeedKeeps}
use esp32s3_inmp.Session.{SttBackend, Session, session_tick}
use esp32s3_inmp.Session.Backend.{IsBackend, session_on_backend}
use esp32s3_inmp.Session.Driven.{IsDriven, IsDriven-IsKept, session_tick-IsDriven}
use esp32s3_inmp.Server.{
  Conn, Recv, bytes, retry, failed, Round, Serving, serving, hung_up, answered, stuck, on_payload,
  conn_callbacks, set_sess, last_tick, serve_ticks, after_feed, serve_recv, serve_round,
  send_cut_response, recv_max,
}

-- A received buffer fits the one that it is read into.
abbrev pub RecvFits : Recv → Type 0
RecvFits (bytes buf) = length buf ≤ recv_max
RecvFits _ = Unit {0}

module _ {C : Type 0} (good : C → Type 0) (d : Debounce) where
  -- The session of a connection: it is there, its backend is in a good state, and its timer, which
  -- started as `d`, has been driven by calls only.
  pub record IsServed (c : Conn C) : Type 0 where
    pub session : Session C
    pub sess_is : c.sess ≡ some session
    pub driven : IsDriven d session
    pub good_ctx : good session.ctx

  -- The response of a connection goes out behind the decision to cut, and is that of its session.
  pub record IsAnswer (out : Option Bytes) (c : Conn C) : Type 0 where
    pub served : IsServed c
    pub is_cut : (served.session).deb.state ≡ cut
    pub out_is : out ≡ send_cut_response served.session

  -- No connection runs out of fuel.
  abbrev pub Proper : Serving C → Type 0
  Proper (serving ing) = IsServed ing.user × Ready ing
  Proper (hung_up ing) = IsServed ing.user
  Proper (answered out ing) = IsAnswer out ing.user
  Proper stuck = ⊥

  tick_cuts :
      (s : Session C) (t : ℕ) → (session_tick s t).0 ≡ true → (session_tick s t).1.deb.state ≡ cut
  unfolding session_tick debounce_should_cut
  tick_cuts s t e = ground arith

  tick_good : (s : Session C) (t : ℕ) → good s.ctx → good (session_tick s t).1.ctx
  unfolding session_tick
  tick_good s t g = g

  ticked :
      (ing : HttpIngest (Conn C)) (s : Session C) (t : ℕ)
      → IsDriven d s
      → good s.ctx
      → IsServed (set_sess ing (session_tick s t).1).user
  ticked ing s t v g = record {
    session = (session_tick s t).1;
    sess_is = refl;
    driven = session_tick-IsDriven d s t v;
    good_ctx = tick_good s t g;
  }

  answered-Proper :
      (ing : HttpIngest (Conn C)) (s : Session C) (t : ℕ)
      → IsDriven d s
      → good s.ctx
      → (session_tick s t).0 ≡ true
      → Proper
          (answered (send_cut_response (session_tick s t).1) (set_sess ing (session_tick s t).1))
  unfolding ticked
  answered-Proper ing s t v g e = record {
    served = ticked ing s t v g;
    is_cut = tick_cuts s t e;
    out_is = refl;
  }

  last_tick-Proper :
      (ing : HttpIngest (Conn C)) (s : Session C) (r : Round)
      → IsDriven d s
      → good s.ctx
      → Ready ing
      → Proper (last_tick ing s r)
  unfolding last_tick
  last_tick-Proper ing s r v g ready = elim (Bool-cases (session_tick s r.last_ms).0) [
    | inl e ↦ rw e (answered-Proper ing s r.last_ms v g e)
    | inr e ↦ rw e (ticked ing s r.last_ms v g, ready)
  ]

  -- The rest of a round whose first tick does not cut.
  still_open :
      (complete : Bool) (ing : HttpIngest (Conn C)) (s : Session C) (r : Round)
      → IsDriven d s
      → good s.ctx
      → IsServed (set_sess ing s).user
      → Ready ing
      → Proper (if complete then last_tick ing s r else serving (set_sess ing s))
  still_open true ing s r v g w ready = last_tick-Proper ing s r v g ready
  still_open false ing s r v g w ready = (w, ready)

  serve_ticks-Proper :
      (ing : HttpIngest (Conn C)) (r : Round)
      → IsServed ing.user
      → Ready ing
      → Proper (serve_ticks ing r)
  unfolding serve_ticks
  serve_ticks-Proper ing r v ready =
      let s : Session C = v.session in
      let s' : Session C = (session_tick s r.tick_ms).1 in
      elim (Bool-cases (session_tick s r.tick_ms).0) [
        | inl e ↦
            rw (v.sess_is, e, serve_ticks) (answered-Proper ing s r.tick_ms v.driven v.good_ctx e)
        | inr e ↦
            rw (v.sess_is, e, serve_ticks)
              (still_open ing.complete ing s' r (session_tick-IsDriven d s r.tick_ms v.driven)
                (tick_good s r.tick_ms v.good_ctx) (ticked ing s r.tick_ms v.driven v.good_ctx)
                ready)
      ]

  after_feed-Proper :
      (o : Option (Option Bytes × HttpIngest (Conn C))) (r : Round)
      → FeedKeeps IsServed o
      → Proper (after_feed o r)
  unfolding after_feed
  after_feed-Proper o r (none, ing, e, v, ready) = rw e v
  after_feed-Proper o r (some rest, ing, e, v, ready) = rw e (serve_ticks-Proper ing r v ready)

module _ {C : Type 0} (stt : SttBackend C) (good : C → Type 0) (bound : ℕ)
    (b : IsBackend stt good bound) (d : Debounce) where
  -- The payload callback keeps the session served.
  on_payload-IsServed :
      (fuel most : ℕ)
      → most < 2 ^ 64
      → most ≤ fuel
      → bound ≤ fuel
      → KeptBy (IsServed good d) most (some (on_payload stt fuel))
  unfolding on_payload
  on_payload-IsServed fuel most small le le' c span fits v =
      let (s', e, w, g) =
        session_on_backend stt good bound b (λ s. IsDriven d s) (IsDriven-IsKept d) fuel v.session
          span c.now_ms v.good_ctx (omega arith) (omega arith) le' v.driven in
      rw (v.sess_is, on_payload) (record { session = s'; sess_is = e; driven = w; good_ctx = g })

  -- Feeding a received buffer.
  pub fed-FeedKeeps :
      (fuel : ℕ) (ing : HttpIngest (Conn C)) (buf : Bytes)
      → recv_max ≤ fuel
      → bound ≤ fuel
      → length buf ≤ recv_max
      → IsServed good d ing.user
      → Ready ing
      → FeedKeeps (IsServed good d) (http_ingest_feed (conn_callbacks stt fuel) fuel ing buf)
  fed-FeedKeeps fuel ing buf le le' fits v ready =
      http_ingest_feed-FeedKeeps (conn_callbacks stt fuel) refl (IsServed good d) recv_max
        (on_payload-IsServed fuel recv_max (omega arith) le le') fuel ing buf ready v (omega arith)
        fits

  serve_recv-Proper :
      (fuel : ℕ) (ing : HttpIngest (Conn C)) (x : Recv) (r : Round)
      → recv_max ≤ fuel
      → bound ≤ fuel
      → RecvFits x
      → IsServed good d ing.user
      → Ready ing
      → Proper good d (serve_recv stt fuel ing x r)
  unfolding serve_recv
  serve_recv-Proper fuel ing (bytes []) r le le' fits v ready = v
  serve_recv-Proper fuel ing (bytes (c ∷ buf)) r le le' fits v ready =
      after_feed-Proper good d _ r (fed-FeedKeeps fuel ing (c ∷ buf) le le' fits v ready)
  serve_recv-Proper fuel ing retry r le le' fits v ready = serve_ticks-Proper good d ing r v ready
  serve_recv-Proper fuel ing failed r le le' fits v ready = v

  -- A round leaves the connection in its loop or closes it, and never out of fuel; if it answers, the
  -- session has been cut.
  pub serve_round-Proper :
      (fuel : ℕ) (ing : HttpIngest (Conn C)) (r : Round)
      → recv_max ≤ fuel
      → bound ≤ fuel
      → RecvFits r.recv
      → IsServed good d ing.user
      → Ready ing
      → Proper good d (serve_round stt fuel ing r)
  unfolding serve_round
  serve_round-Proper fuel ing r le le' fits v ready =
      serve_recv-Proper fuel (record ing { user = record ing.user { now_ms = r.now_ms } }) r.recv r
        le le' fits
        (record {
          session = v.session;
          sess_is = v.sess_is;
          driven = v.driven;
          good_ctx = v.good_ctx;
        })
        ready
