-- ===== src/Server.antt =====
-- server/src/main.c: the life of one connection.
-- The rounds of the loop are a list: what `recv` returns in a round, and what the clock reads where the
-- round reads it. `cctx` is the record `Conn`, the `user` of the parser; its session is `none` once the fuel
-- of the session has run out. `snprintf` and `write` are those of POSIX. The listening socket, the arguments of
-- the program and its messages are not modelled.
pub mod Response
pub mod Rounds
pub mod Life
pub mod Cap
use esp32s3_inmp.Base.{
  ℕ, Bool, true, false, Bytes, [], ◌∷◌, ◌++◌, List, Option, none, some, codes, length, ltb,
  if◌then◌else◌,
}
use esp32s3_inmp.StreamProto.{decimal}
use esp32s3_inmp.Debounce.{cut_reason_str}
use esp32s3_inmp.HttpIngest.{HttpIngest, Callbacks, http_ingest_init, http_ingest_feed}
use esp32s3_inmp.Session.{
  SttBackend, SessionCfg, Session, session_init, session_on_pcm, session_tick, session_cut_reason,
}

-- `sizeof(buf)` of the receive buffer, of the body and of the header.
abbrev pub recv_max : ℕ
recv_max = 2048

abbrev pub body_max : ℕ
body_max = 256

abbrev pub hdr_max : ℕ
hdr_max = 128

pub record Conn (C : Type 0) : Type 0 where
  pub sess : Option (Session C)
  pub now_ms : ℕ

-- What `recv` returns: bytes (none of them if the peer has closed), EAGAIN and the like, or an error.
pub data Recv : Type 0 where
  bytes : Bytes → Recv
  retry failed : Recv

-- One round of the loop: the clock at its start, what is received, and the clock at the two ticks.
pub record Round : Type 0 where
  pub now_ms : ℕ
  pub recv : Recv
  pub tick_ms : ℕ
  pub last_ms : ℕ

-- `s ? s : ""`
abbrev pub or_empty : Option Bytes → Bytes
or_empty none = []
or_empty (some s) = s

module _ {C : Type 0} where
  -- The text that `snprintf` formats as the body.
  unfoldable pub cut_body : Session C → Bytes
  cut_body s =
      codes "{\"cut\":\""
      ++ (codes (cut_reason_str (session_cut_reason s))
          ++ (codes "\",\"commands\":"
              ++ (decimal s.commands
                  ++ (codes ",\"intent\":\""
                      ++ (or_empty s.last_intent_name
                          ++ (codes "\",\"transcript\":\""
                              ++ (s.last_transcript ++ codes "\"}")))))))

-- The text of the header, for a body of `blen` bytes.
unfoldable pub cut_header : ℕ → Bytes
cut_header blen =
    codes
      "HTTP/1.1 200 OK\r\nContent-Type: application/json\r\nConnection: close\r\nContent-Length: "
    ++ (decimal blen ++ codes "\r\n\r\n")

module _ {C : Type 0} where
  -- What the two writes send. `snprintf` returns the length of the whole text: where that does not fit the
  -- buffer, the write reads behind it, which is `none`.
  unfoldable pub send_cut_response : Session C → Option Bytes
  unfolding cut_body cut_header
  send_cut_response s =
      let body = cut_body s in
      let hdr = cut_header (length body) in
      if ltb (length body) body_max
      then if ltb (length hdr) hdr_max then some (hdr ++ body) else none
      else none

-- How a connection stands: in its loop, closed with no response, closed behind the response, or out of
-- the session's or the parser's fuel.
pub data Serving (C : Type 0) : Type 0 where
  serving hung_up : HttpIngest (Conn C) → Serving C
  answered : Option Bytes → HttpIngest (Conn C) → Serving C
  stuck : Serving C

module _ {C : Type 0} (stt : SttBackend C) where
  unfoldable pub on_payload : ℕ → Conn C → Bytes → Conn C
  on_payload fuel c payload = elim c.sess [
    | none ↦ c
    | some s ↦ record c { sess = session_on_pcm stt fuel s payload c.now_ms }
  ]

  abbrev pub conn_callbacks : ℕ → Callbacks (Conn C)
  conn_callbacks fuel = record { on_payload = some (on_payload fuel); on_header = none }

module _ {C : Type 0} where
  abbrev pub set_sess : HttpIngest (Conn C) → Session C → HttpIngest (Conn C)
  set_sess ing s = record ing { user = record ing.user { sess = some s } }

  -- The tick for a request that is complete.
  unfoldable pub last_tick : HttpIngest (Conn C) → Session C → Round → Serving C
  last_tick ing s r =
      let (cut, s') = session_tick s r.last_ms in
      if cut then answered (send_cut_response s') (set_sess ing s') else serving (set_sess ing s')

  -- The end of a round.
  unfoldable pub serve_ticks : HttpIngest (Conn C) → Round → Serving C
  unfolding last_tick
  serve_ticks ing r = elim (ing.user).sess [
    | none ↦ stuck
    | some s ↦
        let (cut, s') = session_tick s r.tick_ms in
        if cut
        then answered (send_cut_response s') (set_sess ing s')
        else if ing.complete
        then last_tick ing s' r
        else serving (set_sess ing s')
  ]

  -- What follows a call of `http_ingest_feed`.
  unfoldable pub after_feed : Option (Option Bytes × HttpIngest (Conn C)) → Round → Serving C
  unfolding serve_ticks
  after_feed none r = stuck
  after_feed (some (none, ing)) r = hung_up ing
  after_feed (some (some rest, ing)) r = serve_ticks ing r

  -- A connection that is still served goes on.
  unfoldable pub serve_next : (HttpIngest (Conn C) → Serving C) → Serving C → Serving C
  serve_next go_on (serving ing) = go_on ing
  serve_next go_on (hung_up ing) = hung_up ing
  serve_next go_on (answered out ing) = answered out ing
  serve_next go_on stuck = stuck

module _ {C : Type 0} (stt : SttBackend C) where
  unfoldable pub serve_recv : ℕ → HttpIngest (Conn C) → Recv → Round → Serving C
  unfolding after_feed serve_ticks
  serve_recv fuel ing (bytes []) r = hung_up ing
  serve_recv fuel ing (bytes (c ∷ buf)) r =
      after_feed (http_ingest_feed (conn_callbacks stt fuel) fuel ing (c ∷ buf)) r
  serve_recv fuel ing retry r = serve_ticks ing r
  serve_recv fuel ing failed r = hung_up ing

  unfoldable pub serve_round : ℕ → HttpIngest (Conn C) → Round → Serving C
  unfolding serve_recv
  serve_round fuel ing r =
      serve_recv fuel (record ing { user = record ing.user { now_ms = r.now_ms } }) r.recv r

  -- The loop, on the rounds to come.
  unfoldable pub serve : ℕ → HttpIngest (Conn C) → List Round → Serving C
  serve fuel ing [] = serving ing
  serve fuel ing (r ∷ rounds) = serve_next (λ ing'. serve fuel ing' rounds) (serve_round fuel ing r)

  -- `init_ms` and `first_ms` are the clock where the session is opened and where `cctx` is set up.
  unfoldable pub handle_conn : ℕ → SessionCfg → C → ℕ → ℕ → List Round → Serving C
  unfolding serve
  handle_conn fuel cfg c init_ms first_ms rounds =
      serve fuel
        (http_ingest_init
          (record { sess = some (session_init stt cfg c init_ms); now_ms = first_ms }))
        rounds
