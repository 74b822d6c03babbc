-- ===== src/Tone/Library.antt =====
-- tone.c: the table of named tunes, and which tune may play. The JSON library is outside: the table
-- is the list of its rows, each with the strings that the row has.
use signalk_esp_os_8relay.Base.{
  ℕ, zero, suc, ◌+◌, if◌then◌else◌, Bool, ◌||◌, ◌==◌, ltb, List, [], ◌∷◌, length, same_text, Option,
  none, some,
}
use signalk_esp_os_8relay.Tone.Rtttl.{Note, NoteMs, max_notes, rtttl_parse}

-- TONE_NAME_MAX
abbrev pub name_max : ℕ
name_max = 24

-- tone_t
pub record Tone : Type 0 where
  pub name : List ℕ
  pub notes : List Note

-- A row of the table; `none` is a member that is missing or no string.
pub record Row : Type 0 where
  pub is_object : Bool
  pub name : Option (List ℕ)
  pub rtttl : Option (List ℕ)

-- The tune of a row with both strings; `none` is a row that is passed over.
unfoldable pub tone_of : List ℕ → Option (List Note) → Option Tone
tone_of name none = none
tone_of name (some []) = none
tone_of name (some (v ∷ notes)) = some (record { name = name; notes = v ∷ notes })

unfoldable pub row_tone : NoteMs → Option (List ℕ) → Option (List ℕ) → Option Tone
unfolding tone_of
row_tone note_ms none rtttl = none
row_tone note_ms (some name) none = none
row_tone note_ms (some name) (some rtttl) =
    if length name == 0 || ltb name_max (length name)
    then none
    else tone_of name (rtttl_parse note_ms rtttl max_notes)

-- A row that has a tune takes a place.
unfoldable pub add_tone : Option Tone → List Tone → List Tone
add_tone none rest = rest
add_tone (some tone) rest = tone ∷ rest

-- The loop over the rows, with `room` places left.
unfoldable pub rows_loop : NoteMs → ℕ → List Row → List Tone
unfolding row_tone add_tone
rows_loop note_ms room [] = []
rows_loop note_ms zero (row ∷ rows) = []
rows_loop note_ms (suc room) (row ∷ rows) =
    elim (if row.is_object then row_tone note_ms row.name row.rtttl else none) [
      | none ↦ rows_loop note_ms (suc room) rows
      | some tone ↦ tone ∷ rows_loop note_ms room rows
    ]

-- tone_library_parse, from the rows of the JSON array; `none` is a text that is no array.
unfoldable pub tone_library_parse : NoteMs → Option (List Row) → ℕ → List Tone
unfolding rows_loop
tone_library_parse note_ms none max = []
tone_library_parse note_ms (some rows) max = rows_loop note_ms max rows

-- The loop of tone_library_find(), from index `i` on.
unfoldable pub find_loop : List Tone → ℕ → List ℕ → Option ℕ
unfolding same_text
find_loop [] i name = none
find_loop (t ∷ tones) i name =
    let later = find_loop tones (i + 1) name in if same_text t.name name then some i else later

-- tone_library_find; `none` is -1.
unfoldable pub tone_library_find : List Tone → List ℕ → Option ℕ
unfolding find_loop
tone_library_find tones [] = none
tone_library_find tones (c ∷ name) = find_loop tones 0 (c ∷ name)

-- tone_priority_t
pub data Priority : Type 0 where
  nothing chirp high : Priority

unfoldable pub rank : Priority → ℕ
rank nothing = 0
rank chirp = 1
rank high = 2

-- tone_priority_allowed
unfoldable pub tone_priority_allowed : Priority → Priority → Bool
unfolding rank
tone_priority_allowed requested active = ltb (rank active) (rank requested)
