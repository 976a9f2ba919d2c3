-- ===== src/Fsm.antt =====
-- firmware/core/src/fsm.c: the application state machine, a pure reducer.
-- `fsm_t` is the record `Fsm`; `fsm_dispatch` returns the action beside the new record. Its counters
-- are `uint32_t` and wrap.
pub mod Graph
use esp32s3_inmp.Base.{ℕ, ◌+◌, u32, String}
use esp32s3_inmp.Power.{WakeCause, unknown, power_on, sound_trigger, button, timer}

pub data State : Type 0 where
  boot confirm_kws connect stream sleep error : State

pub data Event : Type 0 where
  no_event woke kws_confirmed kws_rejected connected connect_failed : Event
  server_closed session_timeout failure : Event

pub data Action : Type 0 where
  no_action start_kws start_connect start_stream enter_sleep : Action

pub record Fsm : Type 0 where
  pub state : State
  pub last_wake_cause : WakeCause
  pub confirm_count : ℕ
  pub reject_count : ℕ
  pub session_count : ℕ
  pub error_count : ℕ

unfoldable pub fsm_init : Fsm
fsm_init = record {
  state = boot;
  last_wake_cause = unknown;
  confirm_count = 0;
  reject_count = 0;
  session_count = 0;
  error_count = 0;
}

-- The switch of `on_wake` on the cause.
wake_state : WakeCause → State
wake_state sound_trigger = confirm_kws
wake_state power_on = confirm_kws
wake_state button = connect
wake_state _ = sleep

wake_action : WakeCause → Action
wake_action sound_trigger = start_kws
wake_action power_on = start_kws
wake_action button = start_connect
wake_action _ = enter_sleep

on_wake : Fsm → WakeCause → Action × Fsm
unfolding wake_state wake_action
on_wake f cause =
    (wake_action cause, record f { state = wake_state cause; last_wake_cause = cause })

-- `fsm_dispatch`: the first clause is the test for a hard error in any state, the others are the
-- switch on the state, and the last is the unhandled event.
dispatch_in : State → Event → WakeCause → Fsm → Action × Fsm
unfolding on_wake
dispatch_in _ failure cause f =
    (enter_sleep, record f { error_count = u32 (f.error_count + 1); state = error })
dispatch_in boot woke cause f = on_wake f cause
dispatch_in sleep woke cause f = on_wake f cause
dispatch_in error woke cause f = on_wake f cause
dispatch_in confirm_kws kws_confirmed cause f =
    (start_connect, record f { confirm_count = u32 (f.confirm_count + 1); state = connect })
dispatch_in confirm_kws kws_rejected cause f =
    (enter_sleep, record f { reject_count = u32 (f.reject_count + 1); state = sleep })
dispatch_in connect connected cause f = (start_stream, record f { state = stream })
dispatch_in connect connect_failed cause f =
    (enter_sleep, record f { error_count = u32 (f.error_count + 1); state = error })
dispatch_in stream server_closed cause f =
    (enter_sleep, record f { session_count = u32 (f.session_count + 1); state = sleep })
dispatch_in stream session_timeout cause f =
    (enter_sleep, record f { session_count = u32 (f.session_count + 1); state = sleep })
dispatch_in _ _ cause f = (no_action, f)

unfoldable pub fsm_dispatch : Fsm → Event → WakeCause → Action × Fsm
unfolding dispatch_in
fsm_dispatch f ev cause = dispatch_in f.state ev cause f

unfoldable pub fsm_state_str : State → String
fsm_state_str boot = "BOOT"
fsm_state_str confirm_kws = "CONFIRM_KWS"
fsm_state_str connect = "CONNECT"
fsm_state_str stream = "STREAM"
fsm_state_str sleep = "SLEEP"
fsm_state_str error = "ERROR"

unfoldable pub fsm_event_str : Event → String
fsm_event_str no_event = "NONE"
fsm_event_str woke = "WOKE"
fsm_event_str kws_confirmed = "KWS_CONFIRMED"
fsm_event_str kws_rejected = "KWS_REJECTED"
fsm_event_str connected = "CONNECTED"
fsm_event_str connect_failed = "CONNECT_FAILED"
fsm_event_str server_closed = "SERVER_CLOSED"
fsm_event_str session_timeout = "SESSION_TIMEOUT"
fsm_event_str failure = "ERROR"

unfoldable pub fsm_action_str : Action → String
fsm_action_str no_action = "NONE"
fsm_action_str start_kws = "START_KWS"
fsm_action_str start_connect = "START_CONNECT"
fsm_action_str start_stream = "START_STREAM"
fsm_action_str enter_sleep = "ENTER_SLEEP"
