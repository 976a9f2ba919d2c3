-- ===== src/Mic/Source.antt =====
-- The microphone as a source of the client: what it hands out, and that it comes to an end.
use esp32s3_inmp.Base.{
  ℤ, pos, negsuc, ℕ, zero, suc, ◌+◌, ◌-◌, ◌*◌, ◌/◌, ◌^◌, ◌≤◌, ◌<◌, ◌≡◌, refl, Bool, true, false,
  ◌&&◌, Bytes, List, [], ◌∷◌, ◌++◌, Option, none, some, min, ltb, ◌==◌, if◌then◌else◌, length,
  length-append, map, arith, Bool-cases, ltb→lt, inl, inr,
}
use mathlib.Core.Logic.{dif_pos, dif_neg}
use native.Mathlib.Bridge.{le_prop}
use mathlib.Core.WellFounded.{Acc}
use native.Mathlib.Decide.{dec_lt}
use esp32s3_inmp.Base.Words.{to_int, nat_acc}
use esp32s3_inmp.Session.Decode.{AllInt16, IsInt16}
use esp32s3_inmp.Wav.RoundTrip.{length-encode}
use esp32s3_inmp.StreamClient.Ends.{ReadsUpTo}
use esp32s3_inmp.Mic.{
  Mic, MicSource, words, shift_right16, shift_left, clamp16, slot_sample, after_read, read_acc,
  mic_i2s_read, mic_frame_energy, mic_source_init, note_frame, is_over, frame_read, mic_src_read,
  mic_pcm_source,
}

-- What is read from the driver is no more than it was asked for.
abbrev pub Within : {W : Type 0} → ℕ → Option Bytes × W → Type 0
Within n (none, w) = Unit {0}
Within n (some bytes, w) = length bytes ≤ n

abbrev pub ReadsFit : {W : Type 0} → Mic W → Type 0
ReadsFit {W} m = (w : W) (n timeout_ms : ℕ) → Within n (m.i2s_channel_read w n timeout_ms)

clamp16-IsInt16 : (v : ℤ) → IsInt16 (clamp16 v)
unfolding clamp16
clamp16-IsInt16 (pos n) = elim (Bool-cases (ltb 32767 n)) [
  | inl e ↦ rw e (omega arith)
  | inr e ↦ rw e (ground arith)
]
clamp16-IsInt16 (negsuc n) = elim (Bool-cases (ltb 32767 n)) [
  | inl e ↦ rw e (omega arith)
  | inr e ↦ rw e (ground arith)
]

words_fit :
    (gain : ℕ) (bytes : Bytes)
    → AllInt16 (map (slot_sample gain) (words bytes))
      × (length (map (slot_sample gain) (words bytes)) ≡ length bytes / 4)
unfolding words slot_sample
words_fit gain [] = (tt, omega arith)
words_fit gain (a ∷ []) = (tt, omega arith)
words_fit gain (a ∷ b ∷ []) = (tt, omega arith)
words_fit gain (a ∷ b ∷ c ∷ []) = (tt, omega arith)
words_fit gain (a ∷ b ∷ c ∷ d ∷ bytes) =
    let (all, len) = words_fit gain bytes in
    (
      (
        clamp16-IsInt16
            (shift_left gain (shift_right16 (to_int (a + 2 ^ 8 * b + 2 ^ 16 * c + 2 ^ 24 * d)))),
        all,
      ),
      omega (arith, len),
    )

AllInt16-append : (xs ys : List ℤ) → AllInt16 xs → AllInt16 ys → AllInt16 (xs ++ ys)
AllInt16-append [] ys a b = b
AllInt16-append (x ∷ xs) ys (h, a) b = (h, AllInt16-append xs ys a b)

-- Samples, as many as were asked for at most.
abbrev pub Frame : {W : Type 0} → ℕ → List ℤ × W → Type 0
Frame n (pcm, w) = (length pcm ≤ n) × AllInt16 pcm

module _ {W : Type 0} (m : Mic W) (fits : ReadsFit m) where
  after_read-Frame :
      (t left : ℕ) (more : 0 < left) (again : (k : ℕ) → k < left → W → List ℤ × W)
      (r : Option Bytes × W)
      → Within (min 128 left * 4) r
      → ((k : ℕ) (lt : k < left) (w : W) → Frame k (again k lt w))
      → Frame left (after_read m t left more again r)
  unfolding after_read
  after_read-Frame t left more again (none, w) h ih = (omega arith, tt)
  after_read-Frame t left more again (some bytes, w) h ih =
      let (all, len) = words_fit m.s_gain_shift bytes in
      elim (dec_lt (length bytes / 4) (min 128 left)) [
        | yes few ↦ rw (dif_pos _ le_prop few) (omega (arith, len), all)
        | no full ↦ rw (dif_neg _ full) (
            let (small, rest) = ih (left - length bytes / 4) _ w in
            (omega (arith, len, small, length-append {0}), AllInt16-append _ _ all rest))
      ]

  read_acc-Frame : (t left : ℕ) (w : W) (a : Acc ◌<◌ left) → Frame left (read_acc m t left w a)
  unfolding read_acc
  read_acc-Frame t left w (Acc.intro _ smaller) = elim (dec_lt 0 left) [
    | yes more ↦ rw (dif_pos _ le_prop more) (
        after_read-Frame t left more (λ k lt w'. read_acc m t k w' (smaller k lt))
          (m.i2s_channel_read w (min 128 left * 4) t) (fits w (min 128 left * 4) t)
          (λ k lt w'. read_acc-Frame t k w' (smaller k lt)))
    | no done ↦ rw (dif_neg _ done) (omega arith, tt)
  ]

  -- The microphone hands out no more samples than it is asked for, each an `int16_t`.
  pub mic_i2s_read-Frame : (t n : ℕ) (w : W) → Frame n (mic_i2s_read m t n w)
  unfolding mic_i2s_read
  mic_i2s_read-Frame t n w =
      started m.s_rx (read_acc m t n w (nat_acc n)) (read_acc-Frame t n w (nat_acc n))
    where
      started : (on : Bool) (x : List ℤ × W) → Frame n x → Frame n (if on then x else ([], w))
      started true x f = f
      started false x f = (omega arith, tt)

  length-frame_read : (s : MicSource) (pcm : List ℤ) → length (frame_read s pcm).0 ≤ 2 * length pcm
  unfolding frame_read
  length-frame_read s [] = omega arith
  length-frame_read s (x ∷ pcm) =
      elim (Bool-cases (is_over (note_frame s (mic_frame_energy (x ∷ pcm))))) [
        | inl e ↦ rw e (omega arith)
        | inr e ↦ rw e (omega (arith, length-encode (x ∷ pcm)))
      ]

  pub mic-ReadsUpTo : (n : ℕ) → ReadsUpTo (mic_pcm_source m) n
  unfolding mic_src_read
  mic-ReadsUpTo n (s, w) = elim (Bool-cases (n / 2 == 0)) [
    | inl e ↦ rw e (omega arith)
    | inr e ↦ rw e (
        omega (
          arith,
          length-frame_read s (mic_i2s_read m s.read_timeout_ms (n / 2) w).0,
          (mic_i2s_read-Frame s.read_timeout_ms (n / 2) w).0,
        ))
  ]

both_true : (a b : Bool) → (a && b) ≡ true → (a ≡ true) × (b ≡ true)
both_true true b h = (refl, h)
both_true false b h = cc

-- A frame that goes out is counted, and was not the last that is allowed.
frame_counted :
    (s : MicSource) (pcm : List ℤ)
    → s.total_frames + 1 < 2 ^ 32
    → 0 < length (frame_read s pcm).0
    → ((frame_read s pcm).1.total_frames ≡ s.total_frames + 1)
      × (s.total_frames + 1 < s.max_frames)
      × ((frame_read s pcm).1.max_frames ≡ s.max_frames)
unfolding frame_read note_frame is_over
frame_counted s [] room h = absurd (omega arith)
frame_counted s (x ∷ pcm) room h = ground arith

module _ {W : Type 0} (m : Mic W) (cap : ℕ) where
  -- Whether the next reads, so many of them, all hand out bytes.
  pub keeps_sending : ℕ → MicSource × W → Bool
  keeps_sending zero u = true
  keeps_sending (suc n) u =
      let (out, u') = mic_src_read m u cap in ltb 0 (length out) && keeps_sending n u'

  abbrev Counted : MicSource → Bytes × (MicSource × W) → Type 0
  Counted s (out, (s', w')) =
      0 < length out
      → (s'.total_frames ≡ s.total_frames + 1)
        × (s.total_frames + 1 < s.max_frames)
        × (s'.max_frames ≡ s.max_frames)

  Counted-if :
      (none_asked : Bool) (s : MicSource) (w : W) (x : Bytes × (MicSource × W))
      → Counted s x
      → Counted s (if none_asked then ([], (s, w)) else x)
  Counted-if true s w x c = λ h. absurd (omega arith)
  Counted-if false s w x c = c

  read-Counted :
      (s : MicSource) (w : W) → s.total_frames + 1 < 2 ^ 32 → Counted s (mic_src_read m (s, w) cap)
  unfolding mic_src_read
  read-Counted s w room =
      Counted-if (cap / 2 == 0) s w _
        (frame_counted s (mic_i2s_read m s.read_timeout_ms (cap / 2) w).0 room)

  sent_before_cap :
      (n : ℕ) (s : MicSource) (w : W)
      → s.total_frames + 1 < 2 ^ 32
      → s.max_frames < 2 ^ 32
      → keeps_sending (suc n) (s, w) ≡ true
      → s.total_frames + suc n < s.max_frames
  unfolding keeps_sending
  sent_before_cap zero s w room small h = ground (arith, read-Counted s w room)
  sent_before_cap (suc n) s w room small h =
      let x = mic_src_read m (s, w) cap in
      let (sent, more) = both_true (ltb 0 (length x.0)) (keeps_sending (suc n) x.1) h in
      let (count, below, kept) = read-Counted s w room (ltb→lt 0 (length x.0) sent) in
      omega
        (arith, count, below, kept, sent_before_cap n x.1.0 x.1.1 (omega arith) (omega arith) more)

  -- The hard cap on an utterance holds whatever the driver hands out, speech or noise: of the first reads
  -- of a new source, as many as `max_frames` or more and at least one, one hands out nothing, which ends
  -- the stream. The cap is below 2^32.
  pub mic_source_capped :
      (thresh hang most n : ℕ) (w : W)
      → most < 2 ^ 32
      → most ≤ suc n
      → keeps_sending (suc n) (mic_source_init thresh hang most, w) ≡ false
  unfolding mic_source_init
  mic_source_capped thresh hang most n w small le =
      elim (Bool-cases (keeps_sending (suc n) (mic_source_init thresh hang most, w))) [
        | inl e ↦ absurd (
            omega
              (arith, sent_before_cap n (mic_source_init thresh hang most) w (omega arith) small e))
        | inr e ↦ e
      ]
