-- ===== src/Tests/Firmware.antt =====
-- The firmware core: the ring buffer, the state machine, the power controller and the application.
use esp32s3_inmp.Base.{
  ℕ, ◌+◌, ◌-◌, ◌≡◌, refl, ◌⊎◌, inl, inr, List, [], ◌∷◌, ◌++◌, none, some, arith, drop, u32,
}
use esp32s3_inmp.RingBuf.{RingBuf, ringbuf_write_overwrite, ringbuf_init}
use esp32s3_inmp.RingBuf.Window.{IsValid, contents, window}
use esp32s3_inmp.RingBuf.Queue.{ringbuf_write_overwrite_lem, ringbuf_init-IsValid}
use esp32s3_inmp.RingBuf.Trace.{
  Op, write, overwrite, read, peek, reset, run, queue_run, run_refines,
}
use esp32s3_inmp.Power.{PowerCtrl, PowerBackend, WakeCause, unknown, dryrun}
use esp32s3_inmp.Power.Keeps.{Keeps}
use esp32s3_inmp.Fsm.{
  Fsm, State, kws_confirmed, connected, boot, confirm_kws, connect, start_connect, no_action,
  fsm_dispatch,
}
use esp32s3_inmp.Fsm.Graph.{idle_boot, Edge, confirm, fsm_dispatch-Edge, Edge-fsm_dispatch}
use esp32s3_inmp.App.{App, AppHooks, app_run_cycle, call_hook, wake}
use esp32s3_inmp.App.Cycle.{cycle_result, app_run_cycle_returns}
use esp32s3_inmp.App.Cycle.Books.{Books}
use esp32s3_inmp.App.Cycle.Settles.{Answers, Asleep}
use esp32s3_inmp.App.Run.{app_run_cycle_sleeps, app_run_cycle_stuck, app_run_cycle-Books}

-- Two bytes, 8 and then 9, round the end of the storage.
abbrev wrapped : RingBuf
wrapped = record { buf = 9 ∷ 7 ∷ 6 ∷ 8 ∷ []; cap = 4; head = 3; tail = 1; count = 2 }

wrapped-IsValid : IsValid wrapped
wrapped-IsValid = omega arith

contents-wrapped : contents wrapped ≡ 8 ∷ 9 ∷ []
unfolding contents window
contents-wrapped = refl

abbrev script : List Op
script =
    write (1 ∷ 2 ∷ 3 ∷ [])
    ∷ peek 2
    ∷ read 3
    ∷ overwrite (4 ∷ 5 ∷ 6 ∷ 7 ∷ 8 ∷ [])
    ∷ read 9
    ∷ reset
    ∷ []

run_refines_example : run wrapped script ≡ queue_run 4 (contents wrapped) script
run_refines_example =
    run_refines script wrapped wrapped-IsValid (tt, (tt, (tt, (omega arith, (tt, (tt, tt))))))

ringbuf_init-IsValid_example :
    IsValid (ringbuf_init (0 ∷ 0 ∷ []) 2) × (contents (ringbuf_init (0 ∷ 0 ∷ []) 2) ≡ [])
ringbuf_init-IsValid_example = ringbuf_init-IsValid (0 ∷ 0 ∷ []) 2 refl (omega arith) (omega arith)

ringbuf_write_overwrite_lem_example :
    let (lost, rb) = ringbuf_write_overwrite wrapped (1 ∷ 2 ∷ 3 ∷ []) in
    (lost ≡ 2 + 3 - 4)
    × (contents rb ≡ drop lost (contents wrapped ++ (1 ∷ 2 ∷ 3 ∷ [])))
    × IsValid rb
ringbuf_write_overwrite_lem_example =
    ringbuf_write_overwrite_lem wrapped (1 ∷ 2 ∷ 3 ∷ []) wrapped-IsValid (omega arith)

-- A backend that only counts in its own state.
abbrev backend : PowerBackend ℕ
backend = record {
  enter_deep_sleep = some (λ pc. record pc { ctx = pc.ctx + 1 });
  wake_cause = none;
}

backend-Keeps : Keeps backend
backend-Keeps = record {
  on_sleep = λ pc. record { mode = refl; sleeps = refl; false_wakes = refl };
  on_cause = tt;
}

abbrev power : PowerCtrl ℕ
power = record { mode = dryrun; ctx = 0; sleep_count = 0; false_wake_count = 0 }

abbrev fsm_in : State → Fsm
fsm_in s = record {
  state = s;
  last_wake_cause = unknown;
  confirm_count = 0;
  reject_count = 0;
  session_count = 0;
  error_count = 0;
}

fsm_dispatch-Edge_example :
    Edge confirm_kws kws_confirmed unknown
      (fsm_dispatch (fsm_in confirm_kws) kws_confirmed unknown).0
      (fsm_dispatch (fsm_in confirm_kws) kws_confirmed unknown).1.state
    ⊎ ((fsm_dispatch (fsm_in confirm_kws) kws_confirmed unknown).0 ≡ no_action)
      × ((fsm_dispatch (fsm_in confirm_kws) kws_confirmed unknown).1 ≡ fsm_in confirm_kws)
fsm_dispatch-Edge_example = fsm_dispatch-Edge (fsm_in confirm_kws) kws_confirmed unknown

Edge-fsm_dispatch_example :
    ((fsm_dispatch (fsm_in confirm_kws) kws_confirmed unknown).0 ≡ start_connect)
    × ((fsm_dispatch (fsm_in confirm_kws) kws_confirmed unknown).1.state ≡ connect)
Edge-fsm_dispatch_example = Edge-fsm_dispatch (fsm_in confirm_kws) confirm refl

-- The wake-word hook counts its calls and confirms; there is no stream hook.
abbrev hooks : AppHooks ℕ
hooks = record {
  run_kws = some (λ u. (kws_confirmed, u + 1));
  connect = some (λ u. (connected, u));
  stream = none;
}

hooks-Answers : Answers hooks
unfolding call_hook
hooks-Answers = record {
  kws = λ u. inl refl;
  connects = λ u. inl refl;
  streams = λ u. inr (inl refl);
}

abbrev app_in : State → App ℕ ℕ
app_in s = record { fsm = fsm_in s; power = power; user = 0; cycles = 0 }

app_in-Books : (s : State) → Books (app_in s)
app_in-Books s = record { rejects = refl; sleeps = λ h. refl }

app_run_cycle_returns_example :
    app_run_cycle backend hooks 4 (app_in boot)
    ≡ some ((wake backend hooks (app_in boot)).0, cycle_result backend hooks (app_in boot))
app_run_cycle_returns_example = app_run_cycle_returns backend hooks 4 (app_in boot) (omega arith)

app_run_cycle_sleeps_example :
    (r : WakeCause × App ℕ ℕ) × (app_run_cycle backend hooks 4 (app_in boot) ≡ some r)
    × Asleep r.1.fsm.state
app_run_cycle_sleeps_example =
    app_run_cycle_sleeps backend hooks 4 (app_in boot) (omega arith) hooks-Answers idle_boot

app_run_cycle_stuck_example :
    (r : WakeCause × App ℕ ℕ) × (app_run_cycle backend hooks 4 (app_in connect) ≡ some r)
    × (r.1.fsm ≡ fsm_in connect)
    × (r.1.user ≡ 0)
    × (r.1.cycles ≡ u32 (0 + 1))
app_run_cycle_stuck_example =
    app_run_cycle_stuck backend hooks 4 (app_in connect) (omega arith) (inr (inl refl))

app_run_cycle-Books_example :
    (r : WakeCause × App ℕ ℕ) × (app_run_cycle backend hooks 4 (app_in boot) ≡ some r) × Books r.1
app_run_cycle-Books_example =
    app_run_cycle-Books backend hooks 4 (app_in boot) (omega arith) backend-Keeps
      (app_in-Books boot)
