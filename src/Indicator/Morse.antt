-- ===== src/Indicator/Morse.antt =====
-- The tone of a Morse message at a time, against the message written out for every millisecond.
use signalk_esp_os_8relay.Base.{
  ℕ, zero, suc, ◌+◌, ◌-◌, ◌*◌, ◌%◌, ◌^◌, ◌<◌, ◌≡◌, refl, ap, sym, ◌∙◌, arith, Bool-cases, inl, inr,
  if◌then◌else◌, Bool, false, ◌==◌, ltb, List, [], ◌∷◌, ◌++◌, length, length-append, get_or,
}
use signalk_esp_os_8relay.Base.Words.{u32, add32}
use package.signalk_esp_os_8relay.Indicator.{
  Segment, duration_loop, morse_duration_ms, tone_loop, morse_tone_at,
}

-- `n` milliseconds of tone or silence.
unfoldable pub hold : ℕ → Bool → List Bool
hold zero on = []
hold (suc n) on = on ∷ hold n on

-- The message, a Boolean for each millisecond.
unfoldable pub waveform : List Segment → ℕ → List Bool
unfolding hold
waveform [] unit_ms = []
waveform (s ∷ segs) unit_ms = hold (s.units * unit_ms) s.on ++ waveform segs unit_ms

length-hold : (n : ℕ) (on : Bool) → length (hold n on) ≡ n
unfolding hold
length-hold zero on = refl
length-hold (suc n) on = omega (arith, length-hold n on)

hold-get :
    (n : ℕ) (on : Bool) (rest : List Bool) (t : ℕ)
    → get_or (hold n on ++ rest) t false ≡ (if ltb t n then on else get_or rest (t - n) false)
unfolding hold
hold-get zero on rest t = let same : t - 0 ≡ t = omega arith in rw same (ground arith)
hold-get (suc n) on rest zero = ground arith
hold-get (suc n) on rest (suc t) =
    let same : suc t - suc n ≡ t - n = omega arith in
    let tested : ltb (suc t) (suc n) ≡ ltb t n = ground arith in
    rw (same, tested) (hold-get n on rest t)

length-waveform :
    (s : Segment) (segs : List Segment) (unit_ms : ℕ)
    → length (waveform (s ∷ segs) unit_ms) ≡ s.units * unit_ms + length (waveform segs unit_ms)
unfolding waveform
length-waveform s segs unit_ms =
    length-append (hold (s.units * unit_ms) s.on) (waveform segs unit_ms)
    ∙ ap (λ k. k + length (waveform segs unit_ms)) (length-hold (s.units * unit_ms) s.on)

word_sum : (a b c : ℕ) → a + (b + c) < 2 ^ 32 → add32 a (u32 b) ≡ a + b
word_sum a b c h = omega arith

word_small : (a b : ℕ) → a + b < 2 ^ 32 → u32 a ≡ a
word_small a b h = omega arith

get_or-empty : (l : List Bool) (t : ℕ) → length l ≡ 0 → get_or l t false ≡ false
get_or-empty [] t h = refl
get_or-empty (b ∷ l) t h = absurd (omega (arith, h))

duration_loop-length :
    (segs : List Segment) (unit_ms total : ℕ)
    → total + length (waveform segs unit_ms) < 2 ^ 32
    → duration_loop total segs unit_ms ≡ total + length (waveform segs unit_ms)
unfolding duration_loop waveform
duration_loop-length [] unit_ms total h = omega arith
duration_loop-length (s ∷ segs) unit_ms total h =
    let l = length-waveform s segs unit_ms in
    let step : add32 total (u32 (s.units * unit_ms)) ≡ total + s.units * unit_ms =
      word_sum total (s.units * unit_ms) (length (waveform segs unit_ms)) (rw l at h) in
    let rest = duration_loop-length segs unit_ms (total + s.units * unit_ms) (omega (arith, l)) in
    rw step (rest ∙ omega (arith, l))

tone_loop-waveform :
    (segs : List Segment) (unit_ms t : ℕ)
    → length (waveform segs unit_ms) < 2 ^ 32
    → tone_loop segs unit_ms t ≡ get_or (waveform segs unit_ms) t false
unfolding tone_loop waveform
tone_loop-waveform [] unit_ms t h = refl
tone_loop-waveform (s ∷ segs) unit_ms t h =
    let len = s.units * unit_ms in
    let l = length-waveform s segs unit_ms in
    let small : u32 len ≡ len = word_small len (length (waveform segs unit_ms)) (rw l at h) in
    let rest = tone_loop-waveform segs unit_ms (t - len) (omega (arith, l)) in
    rw (small, rest) (sym (hold-get len s.on (waveform segs unit_ms) t))

-- The tone of a Morse message at a time is what the message written out millisecond by millisecond,
-- and then repeated with silence for the pause, has there; this if one round with its pause is
-- shorter than 2^32 ms.
pub morse_tone_at-waveform :
    (segs : List Segment) (unit_ms pause_ms t_ms : ℕ)
    → length (waveform segs unit_ms) + pause_ms < 2 ^ 32
    → morse_tone_at segs unit_ms pause_ms t_ms
      ≡ get_or (waveform segs unit_ms) (t_ms % (length (waveform segs unit_ms) + pause_ms)) false
unfolding morse_tone_at morse_duration_ms
morse_tone_at-waveform segs unit_ms pause_ms t_ms h =
    let total = length (waveform segs unit_ms) in
    let d : duration_loop 0 segs unit_ms ≡ total =
      duration_loop-length segs unit_ms 0 (omega arith) ∙ omega arith in
    let round : add32 total pause_ms ≡ total + pause_ms = omega arith in
    let tone = tone_loop-waveform segs unit_ms (t_ms % (total + pause_ms)) (omega arith) in
    elim (Bool-cases (total == 0)) [
      | inl none ↦
          simp (d, none)
            (sym (
              get_or-empty (waveform segs unit_ms) (t_ms % (total + pause_ms))
                (ground (arith, none))))
      | inr some ↦ simp (d, some, round) tone
    ]
