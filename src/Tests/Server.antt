-- ===== src/Tests/Server.antt =====
-- The session of the server and what it is built of.
use esp32s3_inmp.Base.{
  ◌%◌, take, ℕ, zero, suc, ◌+◌, ◌*◌, ◌^◌, ◌≤◌, ◌<◌, ◌≡◌, ◌≢◌, ◌⊎◌, ◌↔◌, refl, true, false, List,
  Bytes, [], ◌∷◌, ◌++◌, Option, none, some, codes, arith, length, length-append, u32,
}
use esp32s3_inmp.Debounce.{
  Debounce, DebounceCfg, cut, waiting, no_cut, debounced, max_session, silence, debounce_init,
  debounce_should_cut,
}
use esp32s3_inmp.Debounce.Decide.{Holds, cut_iff_due, cut_reason_first}
use esp32s3_inmp.Debounce.Trace.{Call, speech, command, tick, run, cut_final, session_capped}
use esp32s3_inmp.Base.{pos, negsuc}
use esp32s3_inmp.Vad.{vad_frame_energy, vad_frame_energy_lem, total_magnitude}
use esp32s3_inmp.Intent.{IntentEntry, contains_ci, all_keywords_present, intent_match}
use esp32s3_inmp.Intent.Search.{Occurs, contains_ci_iff}
use esp32s3_inmp.Intent.Match.{
  words_from, AllOccur, all_keywords_present_iff, Found, intent_match_first,
}
use esp32s3_inmp.SttStub.{SttStub, push_pending, stub_feed, stub_poll, stt_stub_init}
use esp32s3_inmp.SttStub.Ring.{queued, enqueue, push_pending_lem, stub_poll_lem, stub_feed-IsValid}
use esp32s3_inmp.Session.{SttBackend, Session, Energy, call_feed, decode_le16, block_loop}
use esp32s3_inmp.Session.Decode.{samples, even_span_exact}
use esp32s3_inmp.Session.Blocks.{FeedSplits, block_loop_lem}

abbrev timers : DebounceCfg
timers = record { debounce_ms = 1500; max_session_ms = 30000; silence_ms = 4000 }

-- A session that heard a command.
abbrev heard : Debounce
heard = record {
  cfg = timers;
  state = waiting;
  reason = no_cut;
  start_ms = 100;
  last_speech_ms = 900;
  last_cmd_ms = 900;
  commands = 1;
}

cut_iff_due_example :
    ((debounce_should_cut heard 3000).0 ≡ true)
    ↔ (Holds heard 3000 max_session ⊎ Holds heard 3000 debounced ⊎ Holds heard 3000 silence)
cut_iff_due_example = cut_iff_due heard 3000 (λ e. cc)

heard_cut : (debounce_should_cut heard 3000).0 ≡ true
unfolding debounce_should_cut
heard_cut = refl

cut_reason_first_example :
    let d' = (debounce_should_cut heard 3000).1 in
    Holds heard 3000 d'.reason
    × (Holds heard 3000 max_session → d'.reason ≡ max_session)
    × (Holds heard 3000 debounced → d'.reason ≢ silence)
    × (d' ≡ record heard { state = cut; reason = d'.reason })
cut_reason_first_example = cut_reason_first heard 3000 (λ e. cc) heard_cut

abbrev calls : List Call
calls = speech 200 ∷ command 900 ∷ tick 1000 ∷ tick 3000 ∷ speech 3100 ∷ []

session_capped_example :
    (debounce_should_cut
      (run (debounce_init timers (u32 4294967000)) calls)
      (u32 (4294967000 + 30000))).0
    ≡ true
session_capped_example =
    session_capped timers 4294967000 30000 calls (omega arith) (omega arith) (omega arith)

abbrev over : Debounce
over = record heard { state = cut; reason = debounced }

cut_final_example : (run over calls ≡ over) × ((debounce_should_cut (run over calls) 5000).0 ≡ true)
cut_final_example = cut_final over calls 5000 refl

vad_frame_energy_lem_example :
    (vad_frame_energy (pos 100 ∷ negsuc 200 ∷ []) * 2 ≤ total_magnitude (pos 100 ∷ negsuc 200 ∷ []))
    × (total_magnitude (pos 100 ∷ negsuc 200 ∷ [])
        < vad_frame_energy (pos 100 ∷ negsuc 200 ∷ []) * 2 + 2)
    × (vad_frame_energy (pos 100 ∷ negsuc 200 ∷ []) ≤ 2 ^ 15)
vad_frame_energy_lem_example =
    vad_frame_energy_lem (pos 100 ∷ negsuc 200 ∷ []) (omega arith, (omega arith, tt)) (omega arith)
      (omega arith)

contains_ci_iff_example :
    (contains_ci (codes "Turn ON") (codes "on") ≡ true) ↔ Occurs (codes "Turn ON") (codes "on")
contains_ci_iff_example = contains_ci_iff (codes "Turn ON") (codes "on")

all_keywords_present_iff_example :
    (all_keywords_present (codes "Turn ON") (codes "on turn") ≡ true)
    ↔ AllOccur (codes "Turn ON") (words_from [] (codes "on turn"))
all_keywords_present_iff_example = all_keywords_present_iff (codes "Turn ON") (codes "on turn")

abbrev intents : List IntentEntry
intents =
    record { id = 1; name = codes "off"; keywords = some (codes "off") }
    ∷ record { id = 2; name = codes "on"; keywords = some (codes "on turn") }
    ∷ []

intent_match_first_example :
    Found intents (codes "Turn ON") (intent_match (some intents) (some (codes "Turn ON")))
intent_match_first_example = intent_match_first intents (codes "Turn ON")

-- A new stand-in with one script.
abbrev stub : SttStub
stub = record {
  energy_thresh = 10;
  hang_samples = 2;
  min_speech_samples = 1;
  scripts = codes "on" ∷ [];
  next_script = 0;
  in_speech = false;
  speech_run = 0;
  silence_run = 0;
  pending = [] ∷ [] ∷ codes "old" ∷ [] ∷ [];
  pend_head = 2;
  pend_tail = 3;
}

stub-IsValid : esp32s3_inmp.SttStub.Ring.IsValid stub
stub-IsValid = record {
  slots = refl;
  head_in = omega arith;
  tail_in = omega arith;
  scripts_in = omega arith;
  few_scripts = omega arith;
}

push_pending_lem_example :
    queued (push_pending stub (codes "new")) ≡ enqueue (queued stub) (codes "new")
push_pending_lem_example = push_pending_lem stub (codes "new") stub-IsValid

stub_poll_lem_example :
    ((queued stub ≡ []) × (stub_poll stub 3 ≡ (none, stub)))
    ⊎ ((text : Bytes) × (q : List Bytes) × (queued stub ≡ text ∷ q)
        × ((stub_poll stub 3).0 ≡ some (take 2 text))
        × (queued (stub_poll stub 3).1 ≡ q)
        × ((stub_poll stub 3).1 ≡ record stub { pend_head = (stub.pend_head + 1) % 4 }))
stub_poll_lem_example = stub_poll_lem stub 3 stub-IsValid (omega arith) (omega arith)

-- A backend that counts its samples, and hands out one transcript for each that waits.
poll_one : ℕ × ℕ → ℕ → Option Bytes × (ℕ × ℕ)
poll_one (heard_, zero) cap_ = (none, (heard_, zero))
poll_one (heard_, suc n) cap_ = (some (codes "turn on"), (heard_, n))

abbrev counting : SttBackend (ℕ × ℕ)
counting = record {
  reset = none;
  feed = some (λ c block. (c.0 + length block, c.1));
  poll = some poll_one;
}

counting-FeedSplits : FeedSplits counting.feed
counting-FeedSplits = (λ c. ground arith, λ c xs ys. ground (arith, length-append xs ys))

abbrev session : Session (ℕ × ℕ)
session = record {
  cfg = record { intents = some intents; vad = record { energy_thresh = 10 }; debounce = timers };
  ctx = (0, 2);
  deb = debounce_init timers 100;
  last_transcript = [];
  last_intent = none;
  last_intent_name = none;
  commands = 0;
}

abbrev five_bytes : Bytes
five_bytes = 1 ∷ 2 ∷ 255 ∷ 255 ∷ 7 ∷ []

abbrev nothing_yet : Energy (ℕ × ℕ)
nothing_yet = record { energy_sum = 0; energy_n = 0; ctx = (0, 2) }

block_loop_lem_example :
    (out : Energy (ℕ × ℕ)) × (block_loop counting 2 2 five_bytes nothing_yet ≡ some out)
    × (out.energy_n ≡ 0 + 2)
    × (out.ctx ≡ call_feed counting.feed (0, 2) (decode_le16 2 five_bytes))
block_loop_lem_example =
    block_loop_lem counting 2 2 five_bytes nothing_yet counting-FeedSplits (omega arith)
      (omega arith) (omega arith)

even_span_exact_example :
    samples ((1 ∷ 2 ∷ []) ++ (3 ∷ 4 ∷ [])) ≡ samples (1 ∷ 2 ∷ []) ++ samples (3 ∷ 4 ∷ [])
even_span_exact_example = even_span_exact (1 ∷ 2 ∷ []) (3 ∷ 4 ∷ []) refl
