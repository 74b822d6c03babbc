-- ===== src/Tone/Rtttl.antt =====
-- rtttl.c: the parser of ringtones. The loops that skip characters recur on the text. The loops over
-- settings and over notes take fuel, and give `none` when it runs out.
use signalk_esp_os_8relay.Base.{
  is_digit, ℕ, zero, suc, ◌+◌, ◌-◌, ◌*◌, ◌/◌, ◌^◌, if◌then◌else◌, Bool, true, false, not, ◌&&◌,
  ◌||◌, ◌==◌, ltb, leb, List, [], ◌∷◌, length, get_or, Option, none, some,
}
use signalk_esp_os_8relay.Base.Words.{u16, u32}

-- RTTTL_MAX_NOTES
abbrev pub max_notes : ℕ
max_notes = 64

-- rtttl_note_t
pub record Note : Type 0 where
  pub freq_hz : ℕ
  pub duration_ms : ℕ

-- OCTAVE4_HZ, in hundredths of a hertz.
abbrev pub octave4 : List ℕ
octave4 =
    26163 ∷ 27718 ∷ 29366 ∷ 31113 ∷ 32963 ∷ 34923 ∷ 36999 ∷ 39200 ∷ 41530 ∷ 44000 ∷ 46616 ∷ 49388
    ∷ []

-- tolower
unfoldable pub tolower : ℕ → ℕ
tolower c = if leb b'A' c && leb c b'Z' then c + 32 else c

-- The letters from c on, as far as semitone_of() knows them; `none` is -1.
unfoldable pub semitone_at : ℕ → Option ℕ
semitone_at c =
    if c == b'c'
    then some 0
    else if c == b'd'
    then some 2
    else if c == b'e'
    then some 4
    else if c == b'f'
    then some 5
    else if c == b'g'
    then some 7
    else if c == b'a'
    then some 9
    else if c == b'b'
    then some 11
    else none

-- semitone_of
unfoldable pub semitone_of : ℕ → Option ℕ
semitone_of letter = semitone_at (tolower letter)

-- OCTAVE_MAX and NUMBER_MAX
abbrev pub octave_max : ℕ
octave_max = 8

abbrev pub number_max : ℕ
number_max = 9999

-- `c / 100` Hz, `oct` octaves above the lowest, rounded: (uint16_t)(hz + 0.5). The octaves double and
-- halve the number of the table, which a double does exactly; of the tables' numbers only 392.00 and
-- 440.00, which a double holds exactly, come to half a hertz anywhere.
unfoldable pub pitch : ℕ → ℕ → ℕ
pitch c oct = u16 ((2 * c * 2 ^ oct + 100 * 2 ^ 4) / (200 * 2 ^ 4))

-- note_freq_hz
unfoldable pub note_freq_hz : ℕ → Bool → ℕ → ℕ
unfolding pitch
note_freq_hz semitone sharp octave =
    let idx = semitone + (if sharp then 1 else 0) in
    let oct = if ltb octave octave_max then octave else octave_max in
    if leb 12 idx
    then pitch (get_or octave4 (idx - 12) 0) (oct + 1)
    else pitch (get_or octave4 idx 0) oct

-- The loop of read_digits().
unfoldable pub digits_loop : ℕ → List ℕ → ℕ × List ℕ
unfolding is_digit
digits_loop v [] = (v, [])
digits_loop v (c ∷ s) =
    let rest = digits_loop (if leb v number_max then v * 10 + (c - 48) else v) s in
    if is_digit c then rest else (v, c ∷ s)

-- Whether a digit comes first: `*p != start` after the loop.
unfoldable pub starts_with_digit : List ℕ → Bool
unfolding is_digit
starts_with_digit [] = false
starts_with_digit (c ∷ s) = is_digit c

-- read_digits: `*out` keeps its value `old` if there are no digits.
unfoldable pub read_digits : ℕ → List ℕ → ℕ × List ℕ
read_digits old s =
    let (v, rest) = digits_loop 0 s in
    if not (starts_with_digit s)
    then (old, rest)
    else (if ltb number_max v then number_max else v, rest)

-- `while (*p == ' ' || *p == ',') p++`
unfoldable pub skip_blanks : List ℕ → List ℕ
skip_blanks [] = []
skip_blanks (c ∷ s) = let rest = skip_blanks s in if c == b' ' || c == b',' then rest else c ∷ s

-- `while (*p && *p != end) p++`
unfoldable pub skip_to : ℕ → List ℕ → List ℕ
skip_to end [] = []
skip_to end (c ∷ s) = let rest = skip_to end s in if c == end then c ∷ s else rest

-- The text up to a character, and what follows that.
unfoldable pub before : ℕ → List ℕ → List ℕ
before end [] = []
before end (c ∷ s) = let rest = before end s in if c == end then [] else c ∷ rest

unfoldable pub tail : List ℕ → List ℕ
tail [] = []
tail (c ∷ s) = s

-- `def_duration`, `def_octave` and `bpm`
pub record Defaults : Type 0 where
  pub duration : ℕ
  pub octave : ℕ
  pub bpm : ℕ

unfoldable pub set_default : ℕ → ℕ → Defaults → Defaults
set_default key val d =
    if key == b'd'
    then record d { duration = val }
    else if key == b'o'
    then record d { octave = val }
    else if key == b'b'
    then record d { bpm = val }
    else d

-- A setting whose key is `c`, with `value` the text after its `=`: the settings, and the text after
-- its digits.
unfoldable pub take_setting : ℕ → List ℕ → Defaults → Defaults × List ℕ
take_setting c value d =
    let (val, rest) = read_digits 0 value in
    ((if starts_with_digit value then set_default (tolower c) val d else d), rest)

-- The text from the `=` on, if there is one; with none left the settings end.
unfoldable pub at_equals : ℕ → List ℕ → Defaults → Defaults × List ℕ
at_equals c [] d = (d, [])
at_equals c (e ∷ value) d = take_setting c value d

-- What a round of the loop over the settings does at the key `c`.
unfoldable pub setting_round : ℕ → List ℕ → Defaults → Defaults × List ℕ
setting_round c s d = at_equals c (skip_to b'=' (c ∷ s)) d

-- A round, from the first character that is no blank on; `again` is the rounds that follow.
unfoldable pub settings_step :
    List ℕ → Defaults → (List ℕ → Defaults → Option Defaults) → Option Defaults
settings_step [] d again = some d
settings_step (c ∷ rest) d again =
    let (d1, after) = setting_round c rest d in again (skip_to b',' after) d1

-- The loop over the settings; the text ends at `defs_end`.
unfoldable pub defaults_loop : ℕ → List ℕ → Defaults → Option Defaults
defaults_loop zero s d = none
defaults_loop (suc fuel) s d = settings_step (skip_blanks s) d (defaults_loop fuel)

-- `*p == c`, passing over it.
unfoldable pub take_char : ℕ → List ℕ → Bool × List ℕ
take_char c [] = (false, [])
take_char c (d ∷ s) = if d == c then (true, s) else (false, d ∷ s)

-- The duration of a note in milliseconds, from the beats per minute, the denominator and the dot:
-- `whole_note_ms / duration`, times 1.5 with the dot, rounded and at most UINT16_MAX. It is computed
-- in doubles, so it is a parameter.
abbrev pub NoteMs : Type 0
NoteMs = ℕ → ℕ → Bool → ℕ

-- What a round of the loop over the notes makes of the text: the end, a token that is passed over, or
-- a note; the last two with the text that follows.
pub data Token : Type 0 where
  stop : Token
  skipped : List ℕ → Token
  note : Note → List ℕ → Token

-- `out[n] = …`, in front of the notes that follow.
unfoldable pub cons_note : Note → Option (List Note) → Option (List Note)
cons_note v none = none
cons_note v (some vs) = some (v ∷ vs)

-- What follows a token: `again` is the rest of the loop with the same room, `more` with one place
-- less.
unfoldable pub after_token :
    Token → (List ℕ → Option (List Note)) → (List ℕ → Option (List Note)) → Option (List Note)
after_token stop again more = some []
after_token (skipped rest) again more = again rest
after_token (note v rest) again more = cons_note v (more rest)

module _ (note_ms : NoteMs) (d : Defaults) where
  -- A note behind its letter, at a pitch from the letter; `none` is a pause.
  unfoldable pub finish_note : ℕ → Option ℕ → List ℕ → Token
  finish_note duration semitone p =
      let (sharp, p1) = take_char b'#' p in
      let (dotted, p2) = take_char b'.' p1 in
      let (octave, p3) = read_digits d.octave p2 in
      let (dotted_late, p4) = take_char b'.' p3 in
      let length_of = if duration == 0 then d.duration else duration in
      note
        (record {
          freq_hz = elim semitone [ none ↦ 0 | some i ↦ note_freq_hz i sharp octave ];
          duration_ms = note_ms d.bpm length_of (dotted || dotted_late);
        })
        p4

  -- With the letter found: `semitone` is what semitone_of() says of it.
  unfoldable pub at_letter : ℕ → ℕ → List ℕ → Option ℕ → Token
  at_letter duration letter p none =
      if tolower letter == b'p'
      then finish_note duration none p
      else skipped (skip_to b',' (letter ∷ p))
  at_letter duration letter p (some i) =
      if tolower letter == b'p'
      then finish_note duration none p
      else finish_note duration (some i) p

  -- The text from the letter on.
  unfoldable pub from_letter : ℕ → List ℕ → Token
  from_letter duration [] = stop
  from_letter duration (letter ∷ p) = at_letter duration letter p (semitone_of letter)

  -- A round, from the first character that is no blank on.
  unfoldable pub token : List ℕ → Token
  token [] = stop
  token (c ∷ s) = let (duration, p) = read_digits d.duration (c ∷ s) in from_letter duration p

  -- The loop over the notes, with room for `room` more.
  unfoldable pub notes_loop : ℕ → ℕ → List ℕ → Option (List Note)
  notes_loop zero room s = none
  notes_loop (suc fuel) zero s = some []
  notes_loop (suc fuel) (suc room) s =
      after_token (token (skip_blanks s)) (notes_loop fuel (suc room)) (notes_loop fuel room)

-- The settings in use when the text names none.
abbrev pub first_defaults : Defaults
first_defaults = record { duration = 4; octave = 5; bpm = 63 }

-- The settings, and the text of the notes.
unfoldable pub read_defaults : List ℕ → List ℕ → Option Defaults × List ℕ
read_defaults s [] = (some first_defaults, s)
read_defaults s (colon ∷ rest) =
    let defs = before b':' rest in
    (defaults_loop (suc (length defs)) defs first_defaults, tail (skip_to b':' rest))

-- The notes under the settings, if they make sense.
unfoldable pub parse_notes : NoteMs → ℕ → List ℕ → Option Defaults → Option (List Note)
parse_notes note_ms max s none = none
parse_notes note_ms max s (some d) =
    if d.bpm == 0 || d.duration == 0 then some [] else notes_loop note_ms d (suc (length s)) max s

-- rtttl_parse; the outer `none` is that the fuel ran out.
unfoldable pub rtttl_parse : NoteMs → List ℕ → ℕ → Option (List Note)
rtttl_parse note_ms s max =
    let (d, notes) = read_defaults s (skip_to b':' s) in parse_notes note_ms max notes d

-- The loop of rtttl_duration_ms().
unfoldable pub duration_loop : ℕ → List Note → ℕ
duration_loop total [] = total
duration_loop total (v ∷ notes) = duration_loop (u32 (total + v.duration_ms)) notes

-- rtttl_duration_ms
unfoldable pub rtttl_duration_ms : List Note → ℕ
unfolding duration_loop
rtttl_duration_ms notes = duration_loop 0 notes

-- rtttl_tone_at: the pitch, or `none` where it returns false.
unfoldable pub rtttl_tone_at : List Note → ℕ → Option ℕ
rtttl_tone_at [] t_ms = none
rtttl_tone_at (v ∷ notes) t_ms =
    let later = rtttl_tone_at notes (t_ms - v.duration_ms) in
    if ltb t_ms v.duration_ms then if v.freq_hz == 0 then none else some v.freq_hz else later
