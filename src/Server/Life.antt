-- ===== src/Server/Life.antt =====
-- The life of a connection in `handle_conn`: whatever the client sends, and whatever the clock reads.
use esp32s3_inmp.Base.{ℕ, refl, List, [], ◌∷◌, some}
use esp32s3_inmp.Debounce.{Debounce, debounce_init}
use esp32s3_inmp.HttpIngest.{HttpIngest}
use esp32s3_inmp.Session.{SttBackend, SessionCfg, session_init}
use esp32s3_inmp.Session.Backend.{IsBackend}
use esp32s3_inmp.Session.Driven.{session_init-IsDriven}
use esp32s3_inmp.Server.{Round}
use esp32s3_inmp.Server.Rounds.{RecvFits, IsServed}

abbrev pub AllFit : List Round → Type 0
AllFit [] = Unit {0}
AllFit (r ∷ rounds) = RecvFits r.recv × AllFit rounds

module _ {C : Type 0} (stt : SttBackend C) (good : C → Type 0) (bound : ℕ)
    (b : IsBackend stt good bound) where
  -- The connection as the loop finds it.
  pub at_start :
      (cfg : SessionCfg) (c : C) (init_ms first_ms : ℕ)
      → good c
      → IsServed good
          (debounce_init cfg.debounce init_ms)
          (record { sess = some (session_init stt cfg c init_ms); now_ms = first_ms })
  unfolding session_init
  at_start cfg c init_ms first_ms g = record {
    session = session_init stt cfg c init_ms;
    sess_is = refl;
    driven = session_init-IsDriven stt cfg c init_ms;
    good_ctx = b.reset_good c g;
  }
