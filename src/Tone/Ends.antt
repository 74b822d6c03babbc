-- ===== src/Tone/Ends.antt =====
-- The parser ends on every text, with at most as many notes as there is room for.
use signalk_esp_os_8relay.Base.{
  is_digit, ℕ, zero, suc, ◌+◌, ◌-◌, ◌*◌, ◌<◌, ◌≤◌, ◌≡◌, refl, arith, Bool-cases, inl, inr,
  if◌then◌else◌, true, false, ◌||◌, ◌==◌, leb, List, [], ◌∷◌, length, Option, none, some,
}
use signalk_esp_os_8relay.Tone.Rtttl.{
  Note, NoteMs, Defaults, Token, stop, skipped, note, digits_loop, starts_with_digit, read_digits,
  skip_blanks, skip_to, before, take_setting, at_equals, setting_round, settings_step,
  defaults_loop, take_char, finish_note, at_letter, from_letter, token, cons_note, after_token,
  notes_loop, first_defaults, read_defaults, parse_notes, rtttl_parse, tolower, semitone_of,
  number_max,
}

digits_loop-length : (v : ℕ) (s : List ℕ) → length (digits_loop v s).1 ≤ length s
unfolding digits_loop
digits_loop-length v [] = omega arith
digits_loop-length v (c ∷ s) = elim (Bool-cases (is_digit c)) [
  | inl e ↦
      simp e
        (omega (arith, digits_loop-length (if leb v number_max then v * 10 + (c - 48) else v) s))
  | inr e ↦ simp e (omega arith)
]

-- After a digit something is gone.
digits_loop-digit :
    (v c : ℕ) (s : List ℕ) → is_digit c ≡ true → length (digits_loop v (c ∷ s)).1 < length (c ∷ s)
unfolding digits_loop
digits_loop-digit v c s e =
    simp e (omega (arith, digits_loop-length (if leb v number_max then v * 10 + (c - 48) else v) s))

digits_loop-other : (v c : ℕ) (s : List ℕ) → is_digit c ≡ false → (digits_loop v (c ∷ s)).1 ≡ c ∷ s
unfolding digits_loop
digits_loop-other v c s e = simp e refl

read_digits-rest : (old : ℕ) (s : List ℕ) → (read_digits old s).1 ≡ (digits_loop 0 s).1
unfolding read_digits
read_digits-rest old s = elim (Bool-cases (starts_with_digit s)) [
  | inl e ↦ simp e refl
  | inr e ↦ simp e refl
]

read_digits-length : (old : ℕ) (s : List ℕ) → length (read_digits old s).1 ≤ length s
read_digits-length old s = rw (read_digits-rest old s) (digits_loop-length 0 s)

skip_blanks-length : (s : List ℕ) → length (skip_blanks s) ≤ length s
unfolding skip_blanks
skip_blanks-length [] = omega arith
skip_blanks-length (c ∷ s) = elim (Bool-cases (c == b' ' || c == b',')) [
  | inl e ↦ simp e (omega (arith, skip_blanks-length s))
  | inr e ↦ simp e (omega arith)
]

-- What is left starts with no comma.
abbrev NoComma : List ℕ → Type 0
NoComma [] = Unit {0}
NoComma (c ∷ s) = (c == b',') ≡ false

skip_blanks-NoComma : (s : List ℕ) → NoComma (skip_blanks s)
unfolding skip_blanks
skip_blanks-NoComma [] = tt
skip_blanks-NoComma (c ∷ s) = elim (Bool-cases (c == b' ' || c == b',')) [
  | inl e ↦ simp e (skip_blanks-NoComma s)
  | inr e ↦ simp e (ground (arith, e))
]

skip_to-length : (end : ℕ) (s : List ℕ) → length (skip_to end s) ≤ length s
unfolding skip_to
skip_to-length end [] = omega arith
skip_to-length end (c ∷ s) = elim (Bool-cases (c == end)) [
  | inl e ↦ simp e (omega arith)
  | inr e ↦ simp e (omega (arith, skip_to-length end s))
]

skip_to-other :
    (end c : ℕ) (s : List ℕ) → (c == end) ≡ false → length (skip_to end (c ∷ s)) < length (c ∷ s)
unfolding skip_to
skip_to-other end c s e = simp e (omega (arith, skip_to-length end s))

take_char-length : (c : ℕ) (s : List ℕ) → length (take_char c s).1 ≤ length s
unfolding take_char
take_char-length c [] = omega arith
take_char-length c (d ∷ s) = elim (Bool-cases (d == c)) [
  | inl e ↦ simp e (omega arith)
  | inr e ↦ simp e (omega arith)
]

-- The text that a token leaves has fewer than `n` characters.
abbrev Leaves : ℕ → Token → Type 0
Leaves n stop = Unit {0}
Leaves n (skipped rest) = length rest < n
Leaves n (note v rest) = length rest < n

module _ (note_ms : NoteMs) (d : Defaults) where
  finish_note-Leaves :
      (duration : ℕ) (semitone : Option ℕ) (p : List ℕ) (n : ℕ)
      → length p < n
      → Leaves n (finish_note note_ms d duration semitone p)
  unfolding finish_note
  finish_note-Leaves duration semitone p n h =
      let p1 = (take_char b'#' p).1 in
      let p2 = (take_char b'.' p1).1 in
      let p3 = (read_digits d.octave p2).1 in
      omega (
        arith,
        take_char-length b'#' p,
        take_char-length b'.' p1,
        read_digits-length d.octave p2,
        take_char-length b'.' p3,
      )

  at_letter-Leaves :
      (duration letter : ℕ) (p : List ℕ) (o : Option ℕ) (n : ℕ)
      → length p < n
      → length (skip_to b',' (letter ∷ p)) < n
      → Leaves n (at_letter note_ms d duration letter p o)
  unfolding at_letter
  at_letter-Leaves duration letter p none n h g = elim (Bool-cases (tolower letter == b'p')) [
    | inl e ↦ simp e (finish_note-Leaves duration none p n h)
    | inr e ↦ simp e g
  ]
  at_letter-Leaves duration letter p (some i) n h g = elim (Bool-cases (tolower letter == b'p')) [
    | inl e ↦ simp e (finish_note-Leaves duration none p n h)
    | inr e ↦ simp e (finish_note-Leaves duration (some i) p n h)
  ]

  -- Behind digits, any letter will do.
  from_letter-Leaves :
      (duration : ℕ) (s : List ℕ) (n : ℕ)
      → length s < n
      → Leaves n (from_letter note_ms d duration s)
  unfolding from_letter
  from_letter-Leaves duration [] n h = tt
  from_letter-Leaves duration (letter ∷ p) n h =
      at_letter-Leaves duration letter p (semitone_of letter) n (omega (arith, h))
        (omega (arith, h, skip_to-length b',' (letter ∷ p)))

  token-Leaves : (s : List ℕ) → NoComma s → Leaves (length s) (token note_ms d s)
  unfolding token from_letter
  token-Leaves [] h = tt
  token-Leaves (c ∷ s) h = elim (Bool-cases (is_digit c)) [
    | inl e ↦
        from_letter-Leaves (read_digits d.duration (c ∷ s)).0 (read_digits d.duration (c ∷ s)).1
          (suc (length s)) (rw (read_digits-rest d.duration (c ∷ s)) (digits_loop-digit 0 c s e))
    | inr e ↦ rw (read_digits-rest d.duration (c ∷ s)) (
        rw (digits_loop-other 0 c s e) (
          at_letter-Leaves (read_digits d.duration (c ∷ s)).0 c s (semitone_of c) (suc (length s))
            (omega arith) (skip_to-other b',' c s h)))
  ]

  -- A list of notes, and no more than there is room for.
  abbrev pub Notes : ℕ → Option (List Note) → Type 0
  Notes room o = (r : List Note) × (o ≡ some r) × (length r ≤ room)

  after_token-Notes :
      (t : Token) (k room : ℕ) (again more : List ℕ → Option (List Note))
      → Leaves k t
      → ((rest : List ℕ) → length rest < k → Notes (suc room) (again rest))
      → ((rest : List ℕ) → length rest < k → Notes room (more rest))
      → Notes (suc room) (after_token t again more)
  unfolding after_token cons_note
  after_token-Notes stop k room again more h f g = ([], refl, omega arith)
  after_token-Notes (skipped rest) k room again more h f g = f rest h
  after_token-Notes (note v rest) k room again more h f g =
      let (r, e, l) = g rest h in (v ∷ r, rw e refl, omega (arith, l))

  notes_loop-ends :
      (fuel room : ℕ) (s : List ℕ) → length s < fuel → Notes room (notes_loop note_ms d fuel room s)
  unfolding notes_loop
  notes_loop-ends zero room s h = absurd (omega arith)
  notes_loop-ends (suc fuel) zero s h = ([], refl, omega arith)
  notes_loop-ends (suc fuel) (suc room) s h =
      let t = skip_blanks s in
      let short = skip_blanks-length s in
      after_token-Notes (token note_ms d t) (length t) room (notes_loop note_ms d fuel (suc room))
        (notes_loop note_ms d fuel room) (token-Leaves t (skip_blanks-NoComma s))
        (λ rest l. notes_loop-ends fuel (suc room) rest (omega (arith, h, short, l)))
        (λ rest l. notes_loop-ends fuel room rest (omega (arith, h, short, l)))

at_equals-length :
    (c : ℕ) (found : List ℕ) (d : Defaults) (n : ℕ)
    → length found ≤ suc n
    → length (at_equals c found d).1 ≤ n
unfolding at_equals take_setting
at_equals-length c [] d n h = omega arith
at_equals-length c (e ∷ value) d n h = omega (arith, h, read_digits-length 0 value)

settings_step-ends :
    (s : List ℕ) (d : Defaults) (again : List ℕ → Defaults → Option Defaults)
    → ((rest : List ℕ) (d1 : Defaults)
        → length rest < length s
        → (r : Defaults) × (again rest d1 ≡ some r))
    → (r : Defaults) × (settings_step s d again ≡ some r)
unfolding settings_step setting_round
settings_step-ends [] d again h = (d, refl)
settings_step-ends (c ∷ s) d again h =
    let (d1, after) = at_equals c (skip_to b'=' (c ∷ s)) d in
    h (skip_to b',' after) d1 (
      omega (
        arith,
        skip_to-length b',' after,
        at_equals-length c (skip_to b'=' (c ∷ s)) d (length s) (skip_to-length b'=' (c ∷ s)),
      ))

defaults_loop-ends :
    (fuel : ℕ) (s : List ℕ) (d : Defaults)
    → length s < fuel
    → (r : Defaults) × (defaults_loop fuel s d ≡ some r)
unfolding defaults_loop
defaults_loop-ends zero s d h = absurd (omega arith)
defaults_loop-ends (suc fuel) s d h =
    let short = skip_blanks-length s in
    settings_step-ends (skip_blanks s) d (defaults_loop fuel)
      (λ rest d1 l. defaults_loop-ends fuel rest d1 (omega (arith, h, short, l)))

read_defaults-ends : (s found : List ℕ) → (d : Defaults) × ((read_defaults s found).0 ≡ some d)
unfolding read_defaults
read_defaults-ends s [] = (first_defaults, refl)
read_defaults-ends s (colon ∷ rest) =
    defaults_loop-ends (suc (length (before b':' rest))) (before b':' rest) first_defaults
      (omega arith)

parse_notes-ends :
    (note_ms : NoteMs) (max : ℕ) (s : List ℕ) (d : Defaults)
    → (r : List Note) × (parse_notes note_ms max s (some d) ≡ some r) × (length r ≤ max)
unfolding parse_notes
parse_notes-ends note_ms max s d = elim (Bool-cases (d.bpm == 0 || d.duration == 0)) [
  | inl e ↦ ([], simp e refl, omega arith)
  | inr e ↦
      let (r, f, l) = notes_loop-ends note_ms d (suc (length s)) max s (omega arith) in
      (r, simp e f, l)
]

-- The ringtone parser ends on every text with at most as many notes as asked for: its loops, which
-- run here on as many rounds as the text has characters and one more, never run out of them.
pub rtttl_parse-ends :
    (note_ms : NoteMs) (s : List ℕ) (max : ℕ)
    → (r : List Note) × (rtttl_parse note_ms s max ≡ some r) × (length r ≤ max)
unfolding rtttl_parse
rtttl_parse-ends note_ms s max =
    let found = skip_to b':' s in
    let (d, e) = read_defaults-ends s found in
    let (r, f, l) = parse_notes-ends note_ms max (read_defaults s found).1 d in (r, rw e f, l)
