-- ===== src/Config.antt =====
-- server/src/config.c: the default intents and the default session.
use esp32s3_inmp.Base.{[], ◌∷◌, some, codes}
use esp32s3_inmp.Intent.{IntentTable}
use esp32s3_inmp.Session.{SessionCfg}

-- The ids are INTENT_LIGHT_ON, INTENT_LIGHT_OFF and INTENT_STOP of server/include/server/config.h.
abbrev pub server_default_intents : IntentTable
server_default_intents =
    record { id = 0; name = codes "light_on"; keywords = some (codes "light on") }
    ∷ record { id = 1; name = codes "light_off"; keywords = some (codes "light off") }
    ∷ record { id = 2; name = codes "stop"; keywords = some (codes "stop") }
    ∷ []

abbrev pub server_default_session_cfg : SessionCfg
server_default_session_cfg = record {
  intents = some server_default_intents;
  vad = record { energy_thresh = 500 };
  debounce = record { debounce_ms = 1000; max_session_ms = 15000; silence_ms = 4000 };
}
