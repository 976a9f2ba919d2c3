-- ===== src/Server/Cap.antt =====
-- The cap on the length of a session, for a connection of `handle_conn`.
use esp32s3_inmp.Base.{
  ℕ, ◌+◌, ◌≤◌, ◌<◌, ◌^◌, ◌≡◌, sym, ap, ◌∙◌, subst, true, Bytes, List, [], ◌∷◌, ◌++◌, Option, none,
  some, u32,
}
use esp32s3_inmp.Debounce.{Debounce, debounce_init, debounce_should_cut}
use esp32s3_inmp.Debounce.Trace.{session_capped}
use esp32s3_inmp.HttpIngest.{HttpIngest, http_ingest_init}
use esp32s3_inmp.HttpIngest.Feed.{Ready}
use esp32s3_inmp.Session.{SttBackend, Session, SessionCfg, session_tick}
use esp32s3_inmp.Session.Backend.{IsBackend}
use esp32s3_inmp.Session.Driven.{IsDriven}
use esp32s3_inmp.Server.{
  Conn, Recv, bytes, retry, failed, Round, Serving, serving, hung_up, answered, stuck, serve_ticks,
  after_feed, serve_recv, serve_round, serve_next, serve, handle_conn, recv_max,
}
use esp32s3_inmp.Server.Rounds.{RecvFits, IsServed, Proper, serve_round-Proper}
use esp32s3_inmp.Server.Rounds.{fed-FeedKeeps}
use esp32s3_inmp.Server.Life.{AllFit, at_start}
use esp32s3_inmp.HttpIngest.Feed.Keeps.{FeedKeeps}

-- The loop has been left, and not for want of fuel.
abbrev pub IsOver : {C : Type 0} → Serving C → Type 0
IsOver (serving ing) = ⊥
IsOver stuck = ⊥
IsOver _ = Unit {0}

module _ {C : Type 0} (stt : SttBackend C) (good : C → Type 0) (bound : ℕ)
    (b : IsBackend stt good bound) (cfg : SessionCfg) (start late : ℕ)
    (on : 0 < (cfg.debounce).max_session_ms) (due : (cfg.debounce).max_session_ms ≤ late)
    (small : late < 2 ^ 32) where
  timer : Debounce
  timer = debounce_init cfg.debounce (u32 start)

  -- A tick at that time cuts.
  late_tick : (s : Session C) → IsDriven timer s → (session_tick s (u32 (start + late))).0 ≡ true
  unfolding session_tick timer
  late_tick s v =
      subst (λ x. (debounce_should_cut x (u32 (start + late))).0 ≡ true) (sym v.deb_is)
        (session_capped cfg.debounce start late v.calls on due small)

  serve_ticks-IsOver :
      (ing : HttpIngest (Conn C)) (r : Round)
      → r.tick_ms ≡ u32 (start + late)
      → IsServed good timer ing.user
      → IsOver (serve_ticks ing r)
  unfolding serve_ticks
  serve_ticks-IsOver ing r e v =
      let cuts : (session_tick v.session r.tick_ms).0 ≡ true =
        ap (λ t. (session_tick v.session t).0) e ∙ late_tick v.session v.driven in
      rw (v.sess_is, cuts, serve_ticks) tt

  after_feed-IsOver :
      (o : Option (Option Bytes × HttpIngest (Conn C))) (r : Round)
      → r.tick_ms ≡ u32 (start + late)
      → FeedKeeps (IsServed good timer) o
      → IsOver (after_feed o r)
  unfolding after_feed
  after_feed-IsOver o r e (none, ing, f, v, ready) = rw f tt
  after_feed-IsOver o r e (some rest, ing, f, v, ready) = rw f (serve_ticks-IsOver ing r e v)

  serve_recv-IsOver :
      (fuel : ℕ) (ing : HttpIngest (Conn C)) (x : Recv) (r : Round)
      → recv_max ≤ fuel
      → bound ≤ fuel
      → RecvFits x
      → r.tick_ms ≡ u32 (start + late)
      → IsServed good timer ing.user
      → Ready ing
      → IsOver (serve_recv stt fuel ing x r)
  unfolding serve_recv
  serve_recv-IsOver fuel ing (bytes []) r le le' fits e v ready = tt
  serve_recv-IsOver fuel ing (bytes (c ∷ buf)) r le le' fits e v ready =
      after_feed-IsOver _ r e
        (fed-FeedKeeps stt good bound b timer fuel ing (c ∷ buf) le le' fits v ready)
  serve_recv-IsOver fuel ing retry r le le' fits e v ready = serve_ticks-IsOver ing r e v
  serve_recv-IsOver fuel ing failed r le le' fits e v ready = tt

  serve_round-IsOver :
      (fuel : ℕ) (ing : HttpIngest (Conn C)) (r : Round)
      → recv_max ≤ fuel
      → bound ≤ fuel
      → RecvFits r.recv
      → r.tick_ms ≡ u32 (start + late)
      → IsServed good timer ing.user
      → Ready ing
      → IsOver (serve_round stt fuel ing r)
  unfolding serve_round
  serve_round-IsOver fuel ing r le le' fits e v ready =
      serve_recv-IsOver fuel (record ing { user = record ing.user { now_ms = r.now_ms } }) r.recv r
        le le' fits e
        (record {
          session = v.session;
          sess_is = v.sess_is;
          driven = v.driven;
          good_ctx = v.good_ctx;
        })
        ready

  serve_next-IsOver :
      (go_on : HttpIngest (Conn C) → Serving C) (o : Serving C)
      → Proper good timer o
      → ((ing : HttpIngest (Conn C))
          → IsServed good timer ing.user
          → Ready ing
          → IsOver (go_on ing))
      → IsOver (serve_next go_on o)
  unfolding serve_next
  serve_next-IsOver go_on (serving ing) (w, ready) ih = ih ing w ready
  serve_next-IsOver go_on (hung_up ing) w ih = tt
  serve_next-IsOver go_on (answered out ing) w ih = tt
  serve_next-IsOver go_on stuck w ih = absurd w

  IsOver-serve_next :
      (go_on : HttpIngest (Conn C) → Serving C) (o : Serving C)
      → IsOver o
      → IsOver (serve_next go_on o)
  unfolding serve_next
  IsOver-serve_next go_on (serving ing) v = absurd v
  IsOver-serve_next go_on (hung_up ing) v = tt
  IsOver-serve_next go_on (answered out ing) v = tt
  IsOver-serve_next go_on stuck v = absurd v

  serve-IsOver :
      (fuel : ℕ) (ing : HttpIngest (Conn C)) (rounds : List Round) (r : Round)
      → recv_max ≤ fuel
      → bound ≤ fuel
      → AllFit rounds
      → RecvFits r.recv
      → r.tick_ms ≡ u32 (start + late)
      → IsServed good timer ing.user
      → Ready ing
      → IsOver (serve stt fuel ing (rounds ++ (r ∷ [])))
  unfolding serve
  serve-IsOver fuel ing [] r le le' fits fit e v ready =
      IsOver-serve_next _ (serve_round stt fuel ing r)
        (serve_round-IsOver fuel ing r le le' fit e v ready)
  serve-IsOver fuel ing (q ∷ rounds) r le le' (fits0, fits) fit e v ready =
      serve_next-IsOver _ (serve_round stt fuel ing q)
        (serve_round-Proper stt good bound b timer fuel ing q le le' fits0 v ready)
        (λ ing' w ready'. serve-IsOver fuel ing' rounds r le le' fits fit e w ready')

  -- No client can hold a connection: whatever it sends, in whatever pieces, and whatever the rounds before
  -- have read off the clock, a round whose tick comes at least the cap on a session after its start, and less
  -- than 2^32 ms after it, is the last. This holds also if the clock wraps in between.
  pub handle_conn-IsOver :
      (fuel : ℕ) (c : C) (first_ms : ℕ) (rounds : List Round) (r : Round)
      → recv_max ≤ fuel
      → bound ≤ fuel
      → AllFit rounds
      → RecvFits r.recv
      → good c
      → r.tick_ms ≡ u32 (start + late)
      → IsOver (handle_conn stt fuel cfg c (u32 start) first_ms (rounds ++ (r ∷ [])))
  unfolding handle_conn http_ingest_init timer
  handle_conn-IsOver fuel c first_ms rounds r le le' fits fit g e =
      serve-IsOver fuel _ rounds r le le' fits fit e
        (at_start stt good bound b cfg c (u32 start) first_ms g) (λ s. cc)
