-- ===== src/Tests/Life.antt =====
-- The life of a connection at concrete inputs, over the scripted speech-to-text.
use esp32s3_inmp.Base.{ℕ, ◌+◌, ◌≡◌, refl, [], ◌∷◌, ◌++◌, none, some, codes, arith, length, u32}
use esp32s3_inmp.Debounce.{DebounceCfg, debounce_init}
use esp32s3_inmp.Session.{SessionCfg, Session}
use esp32s3_inmp.SttStub.{SttStub, max_pending, stt_stub_init}
use esp32s3_inmp.SttStub.Ring.{IsValid}
use esp32s3_inmp.SttStub.Backend.{stt_stub_backend, stub-IsBackend, stt_stub_init-IsValid}
use esp32s3_inmp.Server.{Round, bytes, retry, handle_conn, cut_header, cut_body, send_cut_response}
use esp32s3_inmp.Server.Cap.{IsOver, handle_conn-IsOver}
use esp32s3_inmp.Server.Response.{send_cut_response_fits}

abbrev timers : DebounceCfg
timers = record { debounce_ms = 1500; max_session_ms = 30000; silence_ms = 4000 }

abbrev cfg : SessionCfg
cfg = record { intents = none; vad = record { energy_thresh = 500 }; debounce = timers }

abbrev stub : SttStub
stub = stt_stub_init (codes "light on" ∷ []) 500 4800 1600

stub-IsValid : IsValid stub
stub-IsValid = stt_stub_init-IsValid (codes "light on" ∷ []) 500 4800 1600 (omega arith)

-- The clock wraps between the two rounds.
abbrev early : Round
early = record {
  now_ms = 4294967100;
  recv = bytes (codes "POST /v1/stream HTTP/1.1\r\n");
  tick_ms = 4294967101;
  last_ms = 4294967102;
}

abbrev late : Round
late = record { now_ms = 30000; recv = retry; tick_ms = u32 (4294967000 + 31000); last_ms = 30001 }

handle_conn-IsOver_example : IsOver (
    handle_conn stt_stub_backend 2048 cfg stub
      (u32 4294967000)
      4294967050
      ((early ∷ []) ++ (late ∷ [])))
handle_conn-IsOver_example =
    handle_conn-IsOver stt_stub_backend IsValid max_pending stub-IsBackend cfg 4294967000 31000
      (omega arith) (omega arith) (omega arith) 2048 stub 4294967050 (early ∷ []) late (omega arith)
      (omega arith) (omega arith, tt) tt stub-IsValid refl

abbrev served : Session ℕ
served = record {
  cfg = cfg;
  ctx = 0;
  deb = debounce_init timers 100;
  last_transcript = codes "light on";
  last_intent = some 1;
  last_intent_name = some (codes "light_on");
  commands = 1;
}

send_cut_response_fits_example :
    send_cut_response served ≡ some (cut_header (length (cut_body served)) ++ cut_body served)
send_cut_response_fits_example = send_cut_response_fits served (omega arith) (omega arith)
