-- ===== src/Tests/Device.antt =====
-- The device at concrete inputs: a microphone that hears one value, sockets that take what they are given.
use esp32s3_inmp.Base.{
  pos, negsuc, ℕ, zero, suc, ◌+◌, ◌≤◌, ◌≡◌, ◌⊎◌, refl, false, true, Bytes, [], ◌∷◌, ◌++◌, some,
  codes, length, take, replicate, length-replicate, arith, min,
}
use esp32s3_inmp.Power.{stay_awake, PowerBackend, sound_trigger}
use esp32s3_inmp.Mic.{Mic, mic_source_init}
use esp32s3_inmp.Mic.Source.{ReadsFit, keeps_sending, mic_source_capped}
use esp32s3_inmp.NetSocket.{Sockets, took, interrupted, got, Sent, Interrupts, tr_send}
use esp32s3_inmp.NetSocket.Wire.{Adds, tr_send_lem}
use esp32s3_inmp.Device.{
  Config, Board, AppCtx, app_main, run_stream, hook_stream, app_scratch_len, hang_frames,
  max_frames,
}
use esp32s3_inmp.Fsm.{failure}
use esp32s3_inmp.Device.Session.{IsShort, hook_stream_too_small, run_stream-EndsWell}
use esp32s3_inmp.Device.Cycle.{Listens, app_main-Listens}
use esp32s3_inmp.StreamClient.Ends.{EndsWell}

-- The driver counts its reads; each fills what it is asked for.
abbrev mic : Mic ℕ
mic = record {
  i2s_channel_read = λ w n t. (some (replicate n 64), w + 1);
  s_rx = true;
  s_gain_shift = 2;
}

mic-ReadsFit : ReadsFit mic
mic-ReadsFit w n t = omega (arith, length-replicate n (let x : ℕ = 64 in x))

mic_source_capped_example : keeps_sending mic 640 5 (mic_source_init 300 40 4, 0) ≡ false
mic_source_capped_example = mic_source_capped mic 640 300 40 4 4 0 (omega arith) (omega arith)

-- A socket that takes two bytes at most and is interrupted once; its state is what is on the wire, and
-- the interruptions to come.
two_at_most : Bytes × ℕ → Bytes → Sent × (Bytes × ℕ)
two_at_most (out, zero) p = (took (min 2 (length p)), (out ++ take (min 2 (length p)) p, zero))
two_at_most (out, suc n) p = (interrupted, (out, n))

two_at_most-Interrupts :
    (w : Bytes × ℕ) (p : Bytes) → Interrupts (two_at_most w p).0 w.1 (two_at_most w p).1.1
unfolding two_at_most
two_at_most-Interrupts (out, zero) p = omega arith
two_at_most-Interrupts (out, suc n) p = omega arith

abbrev slow_sockets : Sockets (Bytes × ℕ)
slow_sockets = record {
  send = two_at_most;
  recv = λ w n. (got 0, w);
  to_come = λ w. w.1;
  interrupts = two_at_most-Interrupts;
}

two_at_most-Adds :
    (w : Bytes × ℕ) (p : Bytes) → Adds p (two_at_most w p).0 w.0 (two_at_most w p).1.0
unfolding two_at_most
two_at_most-Adds (out, zero) p = (omega arith, refl)
two_at_most-Adds (out, suc n) p = refl

tr_send_lem_example :
    let (r, w') = tr_send slow_sockets (9 ∷ [], 1) (1 ∷ 2 ∷ 3 ∷ []) in
    (n : ℕ) × (w'.0 ≡ (9 ∷ []) ++ take n (1 ∷ 2 ∷ 3 ∷ []))
    × (((r ≡ pos 3) × (n ≡ 3)) ⊎ ((r ≡ negsuc 0) × (n ≤ 3)))
tr_send_lem_example =
    tr_send_lem slow_sockets (λ w. w.0) two_at_most-Adds (9 ∷ [], 1) (1 ∷ 2 ∷ 3 ∷ [])

-- The sockets of the board take everything, and the peer closes at once.
abbrev sockets : Sockets ℕ
sockets = record {
  send = λ w p. (took (length p), w + 1);
  recv = λ w n. (got 0, w);
  to_come = λ w. 0;
  interrupts = λ w p. omega arith;
}

-- The front end wants 400 samples, and hears the wake word every time.
abbrev board : Board ℕ ℕ
board = record {
  mic = mic;
  sockets = λ fd. sockets;
  ss_wifi_connect = λ w. (true, w);
  ss_wifi_disconnect = λ w. w;
  ss_tcp_connect = λ w. (pos 54, w);
  ss_tcp_close = λ w fd. w;
  kws_frontend_need_samples = λ k. 400;
  kws_frontend_run = λ k pcm. (some true, k + 1);
}

abbrev config : Config
config = record {
  wake_energy = 350;
  vad_energy = 300;
  vad_hang_ms = 800;
  max_utterance_ms = 8000;
  stream_path = codes "/v1/stream";
  server_host = codes "192.168.1.10";
  session_id = codes "esp32s3";
  scratch_len = 2048;
}

config-IsShort : IsShort config
config-IsShort = record {
  path = omega arith;
  host = omega arith;
  session = omega arith;
  scratch = omega arith;
}

abbrev ctx : AppCtx ℕ ℕ
ctx = record { fd = pos 54; mic = mic_source_init 0 0 0; kws = 0; world = 0 }

abbrev backend : PowerBackend ℕ
backend = record {
  wake_cause = some (λ pc. (sound_trigger, pc));
  enter_deep_sleep = some (λ pc. pc);
}

run_stream-EndsWell_example : EndsWell (run_stream board config ctx)
run_stream-EndsWell_example = run_stream-EndsWell board config mic-ReadsFit config-IsShort ctx

app_main-Listens_example : Listens (app_main board config backend stay_awake 4 3 0 ctx)
app_main-Listens_example =
    app_main-Listens board config mic-ReadsFit config-IsShort backend stay_awake 4 3 0 ctx
      (omega arith)

-- The same device with the scratch buffer of the application.
abbrev small_config : Config
small_config = record config { scratch_len = app_scratch_len }

hook_stream_too_small_example : hook_stream board small_config ctx ≡ (
  failure,
  record ctx {
    mic = mic_source_init 300 (hang_frames board small_config) (max_frames board small_config);
    fd = negsuc 0;
    world = 0;
  },
)
hook_stream_too_small_example = hook_stream_too_small board small_config ctx (omega arith)
