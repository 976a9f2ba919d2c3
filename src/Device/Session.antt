-- ===== src/Device/Session.antt =====
-- A streaming session of the device: the client over the socket and the microphone.
use esp32s3_inmp.Base.{
  ◌+◌, ℤ, pos, negsuc, ℕ, ◌<◌, ◌^◌, refl, inl, inr, Bool, true, false, Option, none, some, length,
  arith, ◌≡◌, ap, lt→ltb, ltb, if◌then◌else◌,
}
use esp32s3_inmp.Fsm.{Event, failure}
use esp32s3_inmp.App.{call_hook}
use esp32s3_inmp.App.Cycle.Settles.{KwsAnswer, ConnectAnswer, StreamAnswer, Answers}
use esp32s3_inmp.StreamProto.{
  stream_proto_build_request_header, stream_proto_chunk_overhead, hex_digits, hex_digits_loop,
}
use esp32s3_inmp.StreamProto.Header.{header-le}
use esp32s3_inmp.StreamClient.{stream_client_run, run_session}
use esp32s3_inmp.StreamClient.Ends.{Progresses, ReadsUpTo, EndsWell, stream_client_run-EndsWell}
use esp32s3_inmp.Mic.{mic_i2s_read, mic_frame_energy, mic_source_init}
use esp32s3_inmp.Mic.Source.{ReadsFit, mic-ReadsUpTo}
use esp32s3_inmp.NetSocket.Wire.{ss_tcp-Progresses}
use esp32s3_inmp.Device.{
  Config, Board, AppCtx, kws_event, judge_window, hook_run_kws, with_fd, hook_connect, transport,
  source, session_cfg, hang_frames, max_frames, run_stream, after_stream, hook_stream, device_hooks,
  frame_bytes, window_max,
}

-- The texts of the configuration and the scratch buffer are shorter than 2^31 bytes.
pub record IsShort (cfg : Config) : Type 0 where
  pub path : length cfg.stream_path < 2 ^ 31
  pub host : length cfg.server_host < 2 ^ 31
  pub session : length cfg.session_id < 2 ^ 31
  pub scratch : cfg.scratch_len < 2 ^ 31

-- An answer that both branches give.
if_answer :
    {U : Type 0} (P : Event → Type 0) (c : Bool) (x y : Event × U)
    → P x.0
    → P y.0
    → P (if c then x else y).0
if_answer P true x y p q = p
if_answer P false x y p q = q

kws_event_answer : (r : Option Bool) → KwsAnswer (kws_event r)
kws_event_answer none = inr (inl refl)
kws_event_answer (some true) = inl refl
kws_event_answer (some false) = inr (inl refl)

module _ {W K : Type 0} (b : Board W K) (cfg : Config) (fits : ReadsFit b.mic)
    (short : IsShort cfg) where
  transport-Progresses : Progresses (transport b cfg)
  transport-Progresses ctx c p e = ss_tcp-Progresses (b.sockets ctx.fd) ctx.world c p e

  source-ReadsUpTo : (n : ℕ) → ReadsUpTo (source b cfg) n
  source-ReadsUpTo n ctx = mic-ReadsUpTo b.mic fits n (ctx.mic, ctx.world)

  -- A session of the device returns, whatever the driver and the network do, with one of the events
  -- that the state machine waits for.
  pub run_stream-EndsWell : (ctx : AppCtx W K) → EndsWell (run_stream b cfg ctx)
  unfolding run_stream session_cfg stream_proto_build_request_header
  run_stream-EndsWell ctx =
      stream_client_run-EndsWell (session_cfg b cfg) (transport b cfg) (source b cfg)
        cfg.scratch_len (cfg.scratch_len + frame_bytes + 20)
        (record ctx { mic = mic_source_init cfg.vad_energy (hang_frames b cfg) (max_frames b cfg) })
        transport-Progresses (source-ReadsUpTo frame_bytes) (omega arith) (omega arith)
        (omega (
          arith,
          header-le cfg.scratch_len (omega arith) cfg.stream_path cfg.server_host cfg.session_id 990
              short.path short.host short.session,
        ))

  hook_stream_answer : (ctx : AppCtx W K) → StreamAnswer (hook_stream b cfg ctx).0
  unfolding hook_stream after_stream
  hook_stream_answer ctx = let (ev, ctx', e, a) = run_stream-EndsWell ctx in rw e a

  hook_connect_answer : (ctx : AppCtx W K) → ConnectAnswer (hook_connect b cfg ctx).0
  unfolding hook_connect with_fd
  hook_connect_answer ctx =
      if_answer ConnectAnswer (b.ss_wifi_connect ctx.world).0 _ _
        (with_fd_answer _ (b.ss_tcp_connect (b.ss_wifi_connect ctx.world).1).0) (inr (inl refl))
    where
      with_fd_answer : (c : AppCtx W K) (fd : ℤ) → ConnectAnswer (with_fd b cfg c fd).0
      with_fd_answer c (pos n) = inl refl
      with_fd_answer c (negsuc n) = inr (inl refl)

  hook_run_kws_answer : (ctx : AppCtx W K) → KwsAnswer (hook_run_kws b cfg ctx).0
  unfolding hook_run_kws judge_window
  hook_run_kws_answer ctx =
      let need = b.kws_frontend_need_samples ctx.kws in
      let buf = (mic_i2s_read b.mic 600 need ctx.world).0 in
      if_answer KwsAnswer (ltb window_max need) _ _ (inr (inl refl)) (
        if_answer KwsAnswer (ltb (length buf) need) _ _ (inr (inl refl)) (
          if_answer KwsAnswer (ltb (mic_frame_energy buf) cfg.wake_energy) _ _ (inr (inl refl))
            (kws_event_answer (b.kws_frontend_run ctx.kws buf).0)))

  -- The hooks of the device answer as the application asks.
  pub device_hooks-Answers : Answers (device_hooks b cfg)
  unfolding device_hooks call_hook
  device_hooks-Answers = record {
    kws = hook_run_kws_answer;
    connects = hook_connect_answer;
    streams = hook_stream_answer;
  }

module _ {W K : Type 0} (b : Board W K) (cfg : Config) where
  run_stream_too_small :
      (ctx : AppCtx W K)
      → cfg.scratch_len < 1287
      → run_stream b cfg ctx
        ≡ some (
          failure,
          record ctx {
            mic = mic_source_init cfg.vad_energy (hang_frames b cfg) (max_frames b cfg);
          },
        )
  unfolding run_stream stream_client_run run_session session_cfg stream_proto_chunk_overhead
      hex_digits hex_digits_loop
  run_stream_too_small ctx small = rw (lt→ltb cfg.scratch_len 1287 small)

  -- With a scratch buffer of fewer than 1287 bytes no session of the device sends or records anything: the
  -- hook answers with an error and closes the socket that was connected for it, without a call of the
  -- socket's `send` and `recv` or of the microphone. The context of the application has 704 bytes.
  pub hook_stream_too_small :
      (ctx : AppCtx W K)
      → cfg.scratch_len < 1287
      → hook_stream b cfg ctx ≡ (
        failure,
        record ctx {
          mic = mic_source_init cfg.vad_energy (hang_frames b cfg) (max_frames b cfg);
          fd = negsuc 0;
          world = b.ss_wifi_disconnect (b.ss_tcp_close ctx.world ctx.fd);
        },
      )
  unfolding hook_stream after_stream
  hook_stream_too_small ctx small = ap (after_stream b cfg ctx) (run_stream_too_small ctx small)
