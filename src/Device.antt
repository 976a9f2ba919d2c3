-- ===== src/Device.antt =====
-- firmware/main/app_main.c: the hooks of the device and its main loop.
-- `app_ctx_t` is the record `AppCtx`, with the state `W` of the hardware behind the drivers. What is
-- asked of Wi-Fi, of the connection set-up and of the wake-word front end is a parameter, `Board`; the
-- configuration of the build is the record `Config`. The front end's results are whether it ran, and
-- whether the wake word was heard. Logging and the pause between cycles are not modelled.
pub mod Session
pub mod Cycle
use esp32s3_inmp.Base.{
  ℤ, pos, negsuc, ℕ, zero, suc, ◌+◌, ◌*◌, ◌/◌, Bool, true, false, Bytes, List, Option, none, some,
  ltb, ◌==◌, if◌then◌else◌, length,
}
use esp32s3_inmp.Fsm.{Event, kws_confirmed, kws_rejected, connected, connect_failed, failure}
use esp32s3_inmp.Power.{PowerMode, PowerBackend, power_init}
use esp32s3_inmp.App.{AppHooks, App, app_init, app_run_cycle, is_real}
use esp32s3_inmp.StreamProto.{StreamProtoCfg}
use esp32s3_inmp.StreamClient.{StreamTransport, PcmSource, StreamClientCfg, stream_client_run}
use esp32s3_inmp.Mic.{Mic, MicSource, mic_i2s_read, mic_frame_energy, mic_source_init, mic_src_read}
use esp32s3_inmp.NetSocket.{Sockets, tr_send, tr_recv}

abbrev pub frame_bytes : ℕ
frame_bytes = 640

abbrev pub frames_per_sec : ℕ
frames_per_sec = 50

-- `sizeof(ctx->scratch)`, which the model takes as a value of the build.
abbrev pub app_scratch_len : ℕ
app_scratch_len = frame_bytes + 64

-- The samples that the window of the wake-word check holds.
abbrev pub window_max : ℕ
window_max = 32 * 160 + 400

-- The values of the build that the hooks read.
pub record Config : Type 0 where
  pub wake_energy : ℕ
  pub vad_energy : ℕ
  pub vad_hang_ms : ℕ
  pub max_utterance_ms : ℕ
  pub stream_path : Bytes
  pub server_host : Bytes
  pub session_id : Bytes
  pub scratch_len : ℕ

-- The drivers. `sockets` is given the descriptor, and a descriptor is negative where there is none.
pub record Board (W K : Type 0) : Type 0 where
  pub mic : Mic W
  pub sockets : ℤ → Sockets W
  pub ss_wifi_connect : W → Bool × W
  pub ss_wifi_disconnect : W → W
  pub ss_tcp_connect : W → ℤ × W
  pub ss_tcp_close : W → ℤ → W
  pub kws_frontend_need_samples : K → ℕ
  pub kws_frontend_run : K → List ℤ → Option Bool × K

pub record AppCtx (W K : Type 0) : Type 0 where
  pub fd : ℤ
  pub mic : MicSource
  pub kws : K
  pub world : W

-- What the wake-word check answers to the result of the front end.
abbrev pub kws_event : Option Bool → Event
kws_event none = kws_rejected
kws_event (some true) = kws_confirmed
kws_event (some false) = kws_rejected

module _ {W K : Type 0} (b : Board W K) (cfg : Config) where
  -- The checks of the window that was captured, and the model's answer.
  unfoldable pub judge_window : AppCtx W K → ℕ → List ℤ → Event × AppCtx W K
  judge_window ctx need buf =
      if ltb (length buf) need
      then (kws_rejected, ctx)
      else if ltb (mic_frame_energy buf) cfg.wake_energy
      then (kws_rejected, ctx)
      else (let (res, kws) = b.kws_frontend_run ctx.kws buf in
          (kws_event res, record ctx { kws = kws }))

  unfoldable pub hook_run_kws : AppCtx W K → Event × AppCtx W K
  unfolding judge_window
  hook_run_kws ctx =
      let need = b.kws_frontend_need_samples ctx.kws in
      if ltb window_max need
      then (kws_rejected, ctx)
      else (let (buf, world) = mic_i2s_read b.mic 600 need ctx.world in
          judge_window (record ctx { world = world }) need buf)

  -- `fd < 0` or not, once the connection was asked for.
  unfoldable pub with_fd : AppCtx W K → ℤ → Event × AppCtx W K
  with_fd ctx (negsuc n) = (connect_failed, record ctx { world = b.ss_wifi_disconnect ctx.world })
  with_fd ctx (pos fd) = (connected, record ctx { fd = pos fd })

  unfoldable pub hook_connect : AppCtx W K → Event × AppCtx W K
  unfolding with_fd
  hook_connect ctx =
      let (up, world) = b.ss_wifi_connect ctx.world in
      if up
      then (let (fd, world') = b.ss_tcp_connect world in with_fd (record ctx { world = world' }) fd)
      else (connect_failed, record ctx { world = world })

  -- The transport and the source of a session, over the context of the hooks.
  abbrev pub transport : StreamTransport (AppCtx W K)
  transport = record {
    send = λ ctx p.
        let (n, world) = tr_send (b.sockets ctx.fd) ctx.world p in
        (n, record ctx { world = world });
    recv = λ ctx len.
        let (n, world) = tr_recv (b.sockets ctx.fd) ctx.world len in
        (n, record ctx { world = world });
  }

  abbrev pub source : PcmSource (AppCtx W K)
  source = record {
    read = λ ctx cap.
        let (out, (mic, world)) = mic_src_read b.mic (ctx.mic, ctx.world) cap in
        (out, record ctx { mic = mic; world = world });
  }

  -- The frames of the longest utterance.
  unfoldable pub max_frames : ℕ
  max_frames = cfg.max_utterance_ms * frames_per_sec / 1000

  unfoldable pub hang_frames : ℕ
  hang_frames = let hang = cfg.vad_hang_ms * frames_per_sec / 1000 in if hang == 0 then 1 else hang

  unfoldable pub session_cfg : StreamClientCfg
  unfolding max_frames
  session_cfg = record {
    proto = record {
      path = some cfg.stream_path;
      host = some cfg.server_host;
      session_id = some cfg.session_id;
      wake_conf_milli = 990;
    };
    frame_bytes = frame_bytes;
    max_chunks = max_frames + frames_per_sec * 5;
  }

  -- The call of the streaming client; its fuel is enough for the header and for a chunk.
  unfoldable pub run_stream : AppCtx W K → Option (Event × AppCtx W K)
  unfolding session_cfg hang_frames max_frames
  run_stream ctx =
      stream_client_run (cfg.scratch_len + frame_bytes + 20) (some session_cfg) (some transport)
        (some source) (some cfg.scratch_len)
        (record ctx { mic = mic_source_init cfg.vad_energy hang_frames max_frames })

  -- What follows the session. It always returns, so that `none` never occurs.
  unfoldable pub after_stream : AppCtx W K → Option (Event × AppCtx W K) → Event × AppCtx W K
  after_stream ctx none = (failure, ctx)
  after_stream ctx (some (ev, ctx')) = (
    ev,
    record ctx' { fd = negsuc 0; world = b.ss_wifi_disconnect (b.ss_tcp_close ctx'.world ctx'.fd) },
  )

  unfoldable pub hook_stream : AppCtx W K → Event × AppCtx W K
  unfolding run_stream after_stream
  hook_stream ctx = after_stream ctx (run_stream ctx)

  unfoldable pub device_hooks : AppHooks (AppCtx W K)
  device_hooks = record {
    run_kws = some hook_run_kws;
    connect = some hook_connect;
    stream = some hook_stream;
  }

  module _ {C : Type 0} (backend : PowerBackend C) (mode : PowerMode) where
    -- The loop of `app_main` on the cycles to come: in REAL mode it is left behind the first.
    unfoldable pub main_loop : ℕ → ℕ → App C (AppCtx W K) → Option (App C (AppCtx W K))
    main_loop fuel zero a = some a
    main_loop fuel (suc n) a = elim (app_run_cycle backend device_hooks fuel a) [
      | none ↦ none
      | some (cause, a') ↦ let rest = main_loop fuel n a' in if is_real mode then some a' else rest
    ]

    -- `app_main` behind the set-up of the drivers.
    unfoldable pub app_main : ℕ → ℕ → C → AppCtx W K → Option (App C (AppCtx W K))
    unfolding main_loop
    app_main fuel n ctx user =
        main_loop fuel n (app_init (power_init mode ctx) (record user { fd = negsuc 0 }))
