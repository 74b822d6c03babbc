-- ===== src/Indicator.antt =====
-- components/indicator/src/indicator_logic.c: the colour of the status LED and the Morse messages of
-- the buzzer. The two functions that format the texts of the messages are left out.
pub mod Morse
use signalk_esp_os_8relay.Base.{
  ℕ, zero, suc, ◌+◌, ◌-◌, ◌*◌, ◌/◌, ◌%◌, if◌then◌else◌, Bool, true, false, not, ◌&&◌, ◌==◌, ltb,
  leb, List, [], ◌∷◌, ◌++◌, length, get_or, Option, none, some, ℤ, pos, leb_ℤ,
}
use signalk_esp_os_8relay.Base.Words.{u8, u32, add32}

-- indicator_state_t
pub data Indication : Type 0 where
  all_well no_signalk warn alarm : Indication

-- indicator_state
unfoldable pub indicator_state : ℤ → Bool → Bool → Indication
indicator_state health sk_relevant sk_connected =
    if leb_ℤ (pos 2) health
    then alarm
    else if leb_ℤ (pos 1) health && leb_ℤ health (pos 1)
    then warn
    else if sk_relevant && not sk_connected
    then no_signalk
    else all_well

-- indicator_rgb_t
pub record Colour : Type 0 where
  pub r : ℕ
  pub g : ℕ
  pub b : ℕ

-- scale
unfoldable pub scale_colour : Colour → ℕ → Colour
scale_colour c brightness_pct =
    let pct = if ltb 100 brightness_pct then 100 else brightness_pct in
    record {
      r = u8 ((c.r * pct + 50) / 100);
      g = u8 ((c.g * pct + 50) / 100);
      b = u8 ((c.b * pct + 50) / 100);
    }

-- The table of indicator_color().
unfoldable pub full_colour : Indication → Colour
full_colour all_well = record { r = 0; g = 255; b = 0 }
full_colour no_signalk = record { r = 0; g = 0; b = 255 }
full_colour warn = record { r = 255; g = 120; b = 0 }
full_colour alarm = record { r = 255; g = 0; b = 0 }

-- indicator_color
unfoldable pub indicator_color : Indication → ℕ → Colour
unfolding scale_colour full_colour
indicator_color state brightness_pct = scale_colour (full_colour state) brightness_pct

-- indicator_override_t
pub data Override : Type 0 where
  no_override portal reset : Override

-- INDICATOR_OVERRIDE_BLINK_MS
abbrev pub override_blink_ms : ℕ
override_blink_ms = 400

abbrev pub black : Colour
black = record { r = 0; g = 0; b = 0 }

-- indicator_override_color
unfoldable pub indicator_override_color : Override → ℕ → ℕ → Colour
unfolding scale_colour
indicator_override_color no_override brightness_pct t_ms = black
indicator_override_color portal brightness_pct t_ms =
    if t_ms / override_blink_ms % 2 == 0
    then scale_colour (record { r = 255; g = 255; b = 255 }) brightness_pct
    else black
indicator_override_color reset brightness_pct t_ms =
    if t_ms / override_blink_ms % 2 == 0
    then scale_colour (record { r = 255; g = 0; b = 0 }) brightness_pct
    else black

-- An element of a Morse letter, '.' or '-'.
pub data Element : Type 0 where
  dot dash : Element

abbrev pub letters : List (List Element)
letters =
    (dot ∷ dash ∷ [])
    ∷ (dash ∷ dot ∷ dot ∷ dot ∷ [])
    ∷ (dash ∷ dot ∷ dash ∷ dot ∷ [])
    ∷ (dash ∷ dot ∷ dot ∷ [])
    ∷ (dot ∷ [])
    ∷ (dot ∷ dot ∷ dash ∷ dot ∷ [])
    ∷ (dash ∷ dash ∷ dot ∷ [])
    ∷ (dot ∷ dot ∷ dot ∷ dot ∷ [])
    ∷ (dot ∷ dot ∷ [])
    ∷ (dot ∷ dash ∷ dash ∷ dash ∷ [])
    ∷ (dash ∷ dot ∷ dash ∷ [])
    ∷ (dot ∷ dash ∷ dot ∷ dot ∷ [])
    ∷ (dash ∷ dash ∷ [])
    ∷ (dash ∷ dot ∷ [])
    ∷ (dash ∷ dash ∷ dash ∷ [])
    ∷ (dot ∷ dash ∷ dash ∷ dot ∷ [])
    ∷ (dash ∷ dash ∷ dot ∷ dash ∷ [])
    ∷ (dot ∷ dash ∷ dot ∷ [])
    ∷ (dot ∷ dot ∷ dot ∷ [])
    ∷ (dash ∷ [])
    ∷ (dot ∷ dot ∷ dash ∷ [])
    ∷ (dot ∷ dot ∷ dot ∷ dash ∷ [])
    ∷ (dot ∷ dash ∷ dash ∷ [])
    ∷ (dash ∷ dot ∷ dot ∷ dash ∷ [])
    ∷ (dash ∷ dot ∷ dash ∷ dash ∷ [])
    ∷ (dash ∷ dash ∷ dot ∷ dot ∷ [])
    ∷ []

abbrev pub digits : List (List Element)
digits =
    (dash ∷ dash ∷ dash ∷ dash ∷ dash ∷ [])
    ∷ (dot ∷ dash ∷ dash ∷ dash ∷ dash ∷ [])
    ∷ (dot ∷ dot ∷ dash ∷ dash ∷ dash ∷ [])
    ∷ (dot ∷ dot ∷ dot ∷ dash ∷ dash ∷ [])
    ∷ (dot ∷ dot ∷ dot ∷ dot ∷ dash ∷ [])
    ∷ (dot ∷ dot ∷ dot ∷ dot ∷ dot ∷ [])
    ∷ (dash ∷ dot ∷ dot ∷ dot ∷ dot ∷ [])
    ∷ (dash ∷ dash ∷ dot ∷ dot ∷ dot ∷ [])
    ∷ (dash ∷ dash ∷ dash ∷ dot ∷ dot ∷ [])
    ∷ (dash ∷ dash ∷ dash ∷ dash ∷ dot ∷ [])
    ∷ []

-- morse_of, with toupper() of ASCII.
unfoldable pub morse_of : ℕ → Option (List Element)
morse_of letter =
    let c = if leb b'a' letter && leb letter b'z' then letter - 32 else letter in
    if leb b'A' c && leb c b'Z'
    then some (get_or letters (c - b'A') [])
    else if leb b'0' c && leb c b'9'
    then some (get_or digits (c - b'0') [])
    else none

-- morse_seg_t
pub record Segment : Type 0 where
  pub on : Bool
  pub units : ℕ

-- `if (n < max) out[n++] = …`
unfoldable pub push : ℕ → Segment → List Segment → List Segment
push max s out = if ltb (length out) max then out ++ (s ∷ []) else out

-- The loop over the elements of a letter: the gap that is owed, and what has been written.
unfoldable pub put_elements : ℕ → List Element → ℕ → List Segment → List Segment
unfolding push
put_elements max [] gap out = out
put_elements max (e ∷ code) gap out =
    let spaced = if gap == 0 then out else push max (record { on = false; units = gap }) out in
    let units : ℕ = elim e [ dash ↦ 3 | dot ↦ 1 ] in
    put_elements max code 1 (push max (record { on = true; units = units }) spaced)

-- A round of the loop over the text: the gap that is owed then, and what has been written.
unfoldable pub encode_char : ℕ → ℕ → ℕ → List Segment → ℕ × List Segment
unfolding morse_of put_elements
encode_char max c gap out =
    if c == b' '
    then (if length out == 0 then 0 else 7, out)
    else elim (morse_of c) [ none ↦ (gap, out) | some code ↦ (3, put_elements max code gap out) ]

unfoldable pub encode_loop : ℕ → List ℕ → ℕ → List Segment → List Segment
unfolding encode_char
encode_loop max [] gap out = out
encode_loop max (c ∷ text) gap out =
    let (gap', out') = encode_char max c gap out in encode_loop max text gap' out'

-- morse_encode
unfoldable pub morse_encode : List ℕ → ℕ → List Segment
unfolding encode_loop
morse_encode text max = encode_loop max text 0 []

-- The loop of morse_duration_ms().
unfoldable pub duration_loop : ℕ → List Segment → ℕ → ℕ
duration_loop total [] unit_ms = total
duration_loop total (s ∷ segs) unit_ms =
    duration_loop (add32 total (u32 (s.units * unit_ms))) segs unit_ms

-- morse_duration_ms
unfoldable pub morse_duration_ms : List Segment → ℕ → ℕ
unfolding duration_loop
morse_duration_ms segs unit_ms = duration_loop 0 segs unit_ms

-- The loop of morse_tone_at().
unfoldable pub tone_loop : List Segment → ℕ → ℕ → Bool
tone_loop [] unit_ms t_ms = false
tone_loop (s ∷ segs) unit_ms t_ms =
    let len = u32 (s.units * unit_ms) in
    let later = tone_loop segs unit_ms (t_ms - len) in if ltb t_ms len then s.on else later

-- morse_tone_at
unfoldable pub morse_tone_at : List Segment → ℕ → ℕ → ℕ → Bool
unfolding morse_duration_ms tone_loop
morse_tone_at segs unit_ms pause_ms t_ms =
    let total = morse_duration_ms segs unit_ms in
    if total == 0 then false else tone_loop segs unit_ms (t_ms % add32 total pause_ms)
