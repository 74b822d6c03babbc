-- ===== src/Tone/Pass.antt =====
-- One pass of a tune, against the tune written out millisecond by millisecond.
use signalk_esp_os_8relay.Base.{
  ℕ, zero, suc, ◌+◌, ◌-◌, ◌*◌, ◌^◌, ◌<◌, ◌≤◌, ◌≡◌, refl, sym, ◌∙◌, ap, arith, Bool-cases, inl, inr,
  if◌then◌else◌, true, false, ◌==◌, ltb, leb, List, [], ◌∷◌, ◌++◌, length, length-append, get_or,
  Option, none, some,
}
use signalk_esp_os_8relay.Base.Words.{u32, sub32}
use signalk_esp_os_8relay.Tone.Rtttl.{
  Note, max_notes, duration_loop, rtttl_duration_ms, rtttl_tone_at,
}
use signalk_esp_os_8relay.Tone.Player.{Player, start, step}

-- `n` milliseconds of one pitch.
unfoldable pub spread : ℕ → ℕ → List ℕ
spread zero freq = []
spread (suc n) freq = freq ∷ spread n freq

-- The pitch of each millisecond, 0 for silence.
unfoldable pub wave : List Note → List ℕ
unfolding spread
wave [] = []
wave (v ∷ notes) = spread v.duration_ms v.freq_hz ++ wave notes

unfoldable pub sounding : ℕ → Option ℕ
sounding freq = if freq == 0 then none else some freq

silence : sounding 0 ≡ none
unfolding sounding
silence = refl

spread-get :
    (n freq : ℕ) (rest : List ℕ) (t : ℕ)
    → get_or (spread n freq ++ rest) t 0 ≡ (if ltb t n then freq else get_or rest (t - n) 0)
unfolding spread
spread-get zero freq rest t = let same : t - 0 ≡ t = omega arith in rw same (ground arith)
spread-get (suc n) freq rest zero = ground arith
spread-get (suc n) freq rest (suc t) =
    let same : suc t - suc n ≡ t - n = omega arith in
    let tested : ltb (suc t) (suc n) ≡ ltb t n = ground arith in
    rw (same, tested) (spread-get n freq rest t)

length-spread : (n freq : ℕ) → length (spread n freq) ≡ n
unfolding spread
length-spread zero freq = refl
length-spread (suc n) freq = omega (arith, length-spread n freq)

rtttl_tone_at-wave :
    (notes : List Note) (t : ℕ) → rtttl_tone_at notes t ≡ sounding (get_or (wave notes) t 0)
unfolding rtttl_tone_at wave sounding
rtttl_tone_at-wave [] t = refl
rtttl_tone_at-wave (v ∷ notes) t =
    rw (spread-get v.duration_ms v.freq_hz (wave notes) t)
      (ground (arith, rtttl_tone_at-wave notes (t - v.duration_ms)))

-- Durations fit in 16 bits.
abbrev pub Fits : List Note → Type 0
Fits [] = Unit {0}
Fits (v ∷ notes) = (v.duration_ms < 2 ^ 16) × Fits notes

wave-bound : (notes : List Note) → Fits notes → length (wave notes) ≤ length notes * 2 ^ 16
unfolding wave
wave-bound [] h = omega arith
wave-bound (v ∷ notes) h = omega (
  arith,
  length-append {0} (spread v.duration_ms v.freq_hz) (wave notes),
  length-spread v.duration_ms v.freq_hz,
  wave-bound notes h.1,
  h.0,
)

duration_loop-length :
    (notes : List Note) (total : ℕ)
    → total + length (wave notes) < 2 ^ 32
    → duration_loop total notes ≡ total + length (wave notes)
unfolding duration_loop wave
duration_loop-length [] total h = omega arith
duration_loop-length (v ∷ notes) total h =
    let parts = length-append {0} (spread v.duration_ms v.freq_hz) (wave notes) in
    let long = length-spread v.duration_ms v.freq_hz in
    let no_wrap : u32 (total + v.duration_ms) ≡ total + v.duration_ms =
      omega (arith, h, parts, long) in
    rw no_wrap (
      duration_loop-length notes (total + v.duration_ms) (omega (arith, h, parts, long))
      ∙ omega (arith, parts, long))

-- The steps at some times.
unfoldable pub steps : List ℕ → Player → Player
steps [] p = p
steps (now ∷ times) p = steps times (step now p).0

-- A pass of `notes` that began at `began`.
record Playing (notes : List Note) (began : ℕ) (p : Player) : Type 0 where
  tone : p.tone ≡ notes
  playing : p.playing ≡ true
  start_ms : p.start_ms ≡ began
  len_ms : p.len_ms ≡ length (wave notes)

module _ (notes : List Note) (began : ℕ) where
  -- Times within the pass.
  abbrev pub Within : List ℕ → Type 0
  Within [] = Unit {0}
  Within (now ∷ times) = (sub32 now began < length (wave notes)) × Within times

  step-within :
      (now : ℕ) (p : Player)
      → sub32 now began < length (wave notes)
      → Playing notes began p
      → Playing notes began (step now p).0
  unfolding step
  step-within now p h w =
      let same : sub32 now p.start_ms ≡ sub32 now began = λ i. sub32 now (w.start_ms i) in
      ground (arith, same, h)

  steps-within :
      (times : List ℕ) (p : Player)
      → Within times
      → Playing notes began p
      → Playing notes began (steps times p)
  unfolding steps
  steps-within [] p h w = w
  steps-within (now ∷ times) p h w = steps-within times (step now p).0 h.1 (step-within now p h.0 w)

  get_or-beyond : (l : List ℕ) (t : ℕ) → length l ≤ t → get_or l t 0 ≡ 0
  get_or-beyond [] t h = refl
  get_or-beyond (x ∷ l) zero h = absurd (omega arith)
  get_or-beyond (x ∷ l) (suc t) h = get_or-beyond l t (omega (arith, h))

  -- The player of such a pass.
  abbrev pass : Player
  pass = record { tone = notes; playing = true; start_ms = began; len_ms = length (wave notes) }

  step-pass : (now : ℕ) → (step now pass).1 ≡ sounding (get_or (wave notes) (sub32 now began) 0)
  unfolding step
  step-pass now = elim (Bool-cases (leb (length (wave notes)) (sub32 now began))) [
    | inl e ↦
        let past : length (wave notes) ≤ sub32 now began = ground (arith, e) in
        let quiet = get_or-beyond (wave notes) (sub32 now began) past in
        simp e (rw quiet (sym silence))
    | inr e ↦ simp e (rtttl_tone_at-wave notes (sub32 now began))
  ]

  step-wave :
      (now : ℕ) (p : Player)
      → Playing notes began p
      → (step now p).1 ≡ sounding (get_or (wave notes) (sub32 now began) 0)
  step-wave now p w =
      let same : p ≡ pass = ground (arith, w.tone, w.playing, w.start_ms, w.len_ms) in
      ap (λ (q : Player). (step now q).1) same ∙ step-pass now

  -- At the end of the pass the player stops.
  step-over :
      (now : ℕ) (p : Player)
      → length (wave notes) ≤ sub32 now began
      → Playing notes began p
      → (step now p).0.playing ≡ false
  unfolding step
  step-over now p h w =
      let same : sub32 now p.start_ms ≡ sub32 now began = λ i. sub32 now (w.start_ms i) in
      ground (arith, same, h)

stopped : (now : ℕ) (p : Player) → p.playing ≡ false → (step now p).1 ≡ none
unfolding step
stopped now p h = ground (arith, h)

started :
    (v : Note) (notes : List Note) (began : ℕ) (p : Player)
    → Fits (v ∷ notes)
    → length (v ∷ notes) ≤ max_notes
    → Playing (v ∷ notes) began (start (v ∷ notes) began p).0
unfolding start rtttl_duration_ms
started v notes began p fits few = record {
  tone = refl;
  playing = refl;
  start_ms = refl;
  len_ms =
      let bound = wave-bound (v ∷ notes) fits in
      duration_loop-length (v ∷ notes) 0 (omega (arith, bound, few)) ∙ omega arith;
}

-- A tune that is started and polled at any times before its end has, at any time, the pitch that
-- the tune written out millisecond by millisecond has there; once a poll has come at or after the
-- end, the next gives silence, whenever it comes. The tune has 1 to 64 notes of less than 2^16 ms,
-- and the clock may wrap.
pub step-waveform :
    (v : Note) (notes : List Note) (began : ℕ) (p : Player) (times : List ℕ) (now later : ℕ)
    → Fits (v ∷ notes)
    → length (v ∷ notes) ≤ max_notes
    → Within (v ∷ notes) began times
    → length (wave (v ∷ notes)) ≤ sub32 later began
    → ((step now (steps times (start (v ∷ notes) began p).0)).1
        ≡ sounding (get_or (wave (v ∷ notes)) (sub32 now began) 0))
      × ((step now (step later (steps times (start (v ∷ notes) began p).0)).0).1 ≡ none)
step-waveform v notes began p times now later fits few within over =
    let tune = v ∷ notes in
    let first = (start tune began p).0 in
    let w = steps-within tune began times first within (started v notes began p fits few) in
    (
      step-wave tune began now (steps times first) w,
      stopped now (step later (steps times first)).0
          (step-over tune began later (steps times first) over w),
    )
