-- ===== src/Debounce.antt =====
-- server/src/debounce.c: when the server cuts a session.
-- `debounce_t` is the record `Debounce`. Times are `uint32_t` milliseconds that wrap. The counter of
-- commands is an `int`: it is a plain number here, exact below 2^31 commands.
pub mod Decide
pub mod Trace
use esp32s3_inmp.Base.{
  ℕ, ◌+◌, sub32, Bool, true, false, not, ◌&&◌, if◌then◌else◌, ◌==◌, leb, String,
}

pub record DebounceCfg : Type 0 where
  pub debounce_ms : ℕ
  pub max_session_ms : ℕ
  pub silence_ms : ℕ

pub data DebounceState : Type 0 where
  listening waiting cut : DebounceState

pub data CutReason : Type 0 where
  no_cut debounced max_session silence : CutReason

pub record Debounce : Type 0 where
  pub cfg : DebounceCfg
  pub state : DebounceState
  pub reason : CutReason
  pub start_ms : ℕ
  pub last_speech_ms : ℕ
  pub last_cmd_ms : ℕ
  pub commands : ℕ

abbrev pub is_cut : DebounceState → Bool
is_cut cut = true
is_cut _ = false

abbrev pub is_waiting : DebounceState → Bool
is_waiting waiting = true
is_waiting _ = false

unfoldable pub debounce_init : DebounceCfg → ℕ → Debounce
debounce_init cfg now_ms = record {
  cfg = cfg;
  state = listening;
  reason = no_cut;
  start_ms = now_ms;
  last_speech_ms = now_ms;
  last_cmd_ms = now_ms;
  commands = 0;
}

unfoldable pub debounce_note_speech : Debounce → ℕ → Debounce
debounce_note_speech d now_ms = if is_cut d.state then d else record d { last_speech_ms = now_ms }

unfoldable pub debounce_note_command : Debounce → ℕ → Debounce
debounce_note_command d now_ms = if is_cut d.state then d else record d {
  last_speech_ms = now_ms;
  last_cmd_ms = now_ms;
  commands = d.commands + 1;
  state = waiting;
}

-- `now - since` in `uint32_t`.
unfoldable pub elapsed : ℕ → ℕ → ℕ
elapsed now since = sub32 now since

-- `limit && elapsed(now, since) >= limit`
expired : ℕ → ℕ → ℕ → Bool
unfolding elapsed
expired limit now since = not (limit == 0) && leb limit (elapsed now since)

cut_for : Debounce → CutReason → Bool × Debounce
cut_for d r = (true, record d { reason = r; state = cut })

unfoldable pub debounce_should_cut : Debounce → ℕ → Bool × Debounce
unfolding expired cut_for
debounce_should_cut d now_ms =
    if is_cut d.state
    then (true, d)
    else if expired d.cfg.max_session_ms now_ms d.start_ms
    then cut_for d max_session
    else if is_waiting d.state && expired d.cfg.debounce_ms now_ms d.last_cmd_ms
    then cut_for d debounced
    else if expired d.cfg.silence_ms now_ms d.last_speech_ms
    then cut_for d silence
    else (false, d)

unfoldable pub cut_reason_str : CutReason → String
cut_reason_str no_cut = "none"
cut_reason_str debounced = "debounce"
cut_reason_str max_session = "max_session"
cut_reason_str silence = "silence"
