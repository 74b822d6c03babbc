-- ===== src/Tests/ToneExamples.antt =====
-- The theorems on espos_tone at inputs that meet their hypotheses, and a tune.
use signalk_esp_os_8relay.Base.{
  ℕ, ◌*◌, ◌/◌, ◌≡◌, ◌≤◌, refl, arith, if◌then◌else◌, true, false, List, [], ◌∷◌, length, codes,
  none, some,
}
use signalk_esp_os_8relay.Tone.Rtttl.{
  Note, NoteMs, note_freq_hz, semitone_of, semitone_at, tolower, max_notes, rtttl_parse,
  read_defaults, parse_notes, defaults_loop, settings_step, setting_round, at_equals, take_setting,
  set_default, notes_loop, after_token, cons_note, token, from_letter, at_letter, finish_note,
  take_char, read_digits, digits_loop, starts_with_digit, skip_blanks, skip_to, before, tail,
}
use signalk_esp_os_8relay.Tone.Player.{Player, start, step}
use signalk_esp_os_8relay.Tone.Library.{Row, tone_library_parse, tone_library_find}
use signalk_esp_os_8relay.Tone.Ends.{rtttl_parse-ends}
use signalk_esp_os_8relay.Tone.Pass.{wave, sounding, steps, step-waveform}

-- The duration in whole milliseconds.
abbrev whole_ms : NoteMs
whole_ms bpm duration dotted =
    let ms = 240000 / (bpm * duration) in if dotted then ms * 3 / 2 else ms

-- Half notes at 120 beats: a, a pause, and a dotted quarter of c sharp.
abbrev tune : List ℕ
tune = codes "x:d=2,b=120:a4,p,4c#."

parsed :
    rtttl_parse whole_ms tune max_notes
    ≡ some (
        record { freq_hz = 440; duration_ms = 1000 }
        ∷ record { freq_hz = 0; duration_ms = 1000 }
        ∷ record { freq_hz = 554; duration_ms = 750 }
        ∷ [])
unfolding rtttl_parse read_defaults parse_notes defaults_loop settings_step setting_round at_equals
    take_setting set_default notes_loop after_token cons_note token from_letter at_letter
    finish_note take_char read_digits digits_loop starts_with_digit skip_blanks skip_to before tail
    semitone_of semitone_at tolower note_freq_hz
parsed = refl

rtttl_parse-ends_example :
    (r : List Note) × (rtttl_parse whole_ms tune max_notes ≡ some r) × (length r ≤ max_notes)
rtttl_parse-ends_example = rtttl_parse-ends whole_ms tune max_notes

-- Two milliseconds of 440 Hz and one of silence.
abbrev first_note : Note
first_note = record { freq_hz = 440; duration_ms = 2 }

abbrev a_rest : List Note
a_rest = record { freq_hz = 0; duration_ms = 1 } ∷ []

abbrev silent : Player
silent = record { tone = []; playing = false; start_ms = 0; len_ms = 0 }

-- The clock wraps during the pass.
step-waveform_example :
    ((step 0 (steps (4294967295 ∷ []) (start (first_note ∷ a_rest) 4294967295 silent).0)).1
      ≡ some 440)
    × ((step 0
          (step 2 (steps (4294967295 ∷ []) (start (first_note ∷ a_rest) 4294967295 silent).0)).0).1
        ≡ none)
unfolding wave sounding
step-waveform_example =
    step-waveform first_note a_rest 4294967295 silent (4294967295 ∷ []) 0 2 (omega arith)
      (omega arith) (omega arith) (omega arith)

-- A row whose name is missing is passed over.
abbrev rows : List Row
rows =
    record { is_object = true; name = none; rtttl = some tune }
    ∷ record { is_object = true; name = some (codes "horn"); rtttl = some tune }
    ∷ []

found : tone_library_find (tone_library_parse whole_ms (some rows) 24) (codes "horn") ≡ some 0
unfolding tone_library_find tone_library_parse rtttl_parse read_defaults parse_notes defaults_loop
    settings_step setting_round at_equals take_setting set_default notes_loop after_token cons_note
    token from_letter at_letter finish_note take_char read_digits digits_loop starts_with_digit
    skip_blanks skip_to before tail semitone_of semitone_at tolower note_freq_hz
found = refl
