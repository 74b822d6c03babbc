-- ===== src/SkBridge/Escape.antt =====
-- The escaped names and messages against the grammar of JSON strings, and the buffers they go to.
use signalk_esp_os_8relay.Base.{
  ℕ, zero, suc, ◌+◌, ◌-◌, ◌*◌, ◌/◌, ◌%◌, ◌<◌, ◌≤◌, ◌≡◌, refl, ◌∙◌, ap, arith, Bool-cases, inl, inr,
  if◌then◌else◌, true, false, ◌&&◌, ◌||◌, ◌==◌, ltb, leb, List, [], ◌∷◌, ◌++◌, length,
  length-append, codes, Option, none, some,
}
use signalk_esp_os_8relay.N2kAlert.{first}
use signalk_esp_os_8relay.DeviceConfig.{InputCfg, InputAlarm}
use signalk_esp_os_8relay.SkBridge.Text.{
  hex_digit, escape_char, escape_loop, json_escape, alarm_state_str, raw_message, raised_text,
  notification_json, meta_text, meta_json,
}

-- A reader of the inside of a JSON string: between characters, after a backslash, or with some more
-- hexadecimal digits to come after the next and their value so far.
pub data Reading : Type 0 where
  plain escaped : Reading
  hex : ℕ → ℕ → Reading

-- The value of a digit, or 16.
nibble : ℕ → ℕ
nibble c =
    if leb b'0' c && leb c b'9' then c - 48 else if leb b'a' c && leb c b'f' then c - 87 else 16

abbrev cons_onto : ℕ → Option (List ℕ) → Option (List ℕ)
cons_onto c none = none
cons_onto c (some s) = some (c ∷ s)

read : Reading → List ℕ → Option (List ℕ)
read plain [] = some []
read escaped [] = none
read (hex more v) [] = none
read plain (c ∷ s) =
    let escape = read escaped s in
    let rest = cons_onto c (read plain s) in
    if c == b'\\' then escape else if c == b'"' || ltb c 0x20 then none else rest
read escaped (c ∷ s) =
    let digits = read (hex 3 0) s in
    let rest = cons_onto c (read plain s) in
    if c == b'"' || c == b'\\' then rest else if c == b'u' then digits else none
read (hex zero v) (c ∷ s) =
    let rest = cons_onto (v * 16 + nibble c) (read plain s) in if nibble c == 16 then none else rest
read (hex (suc more) v) (c ∷ s) =
    let rest = read (hex more (v * 16 + nibble c)) s in if nibble c == 16 then none else rest

-- What the inside of a JSON string stands for; `none` if it cannot stand in one.
unfoldable pub unescape : List ℕ → Option (List ℕ)
unfolding read nibble
unescape s = read plain s

nibble-hex_digit : (d : ℕ) → d < 16 → nibble (hex_digit d) ≡ d
unfolding nibble hex_digit
nibble-hex_digit d h = ground arith

-- The two zeros that every escape starts with, and one more digit.
read_zeros : (s : List ℕ) → read plain (b'\\' ∷ b'u' ∷ b'0' ∷ b'0' ∷ s) ≡ read (hex 1 0) s
unfolding read nibble
read_zeros s = refl

read_digit :
    (more v h a : ℕ) (s : List ℕ)
    → nibble h ≡ a
    → a < 16
    → read (hex (suc more) v) (h ∷ s) ≡ read (hex more (v * 16 + a)) s
unfolding read
read_digit more v h a s e lt = let small : (a == 16) ≡ false = ground arith in rw e (rw small refl)

read_last :
    (v h a : ℕ) (s : List ℕ)
    → nibble h ≡ a
    → a < 16
    → read (hex zero v) (h ∷ s) ≡ cons_onto (v * 16 + a) (read plain s)
unfolding read
read_last v h a s e lt = let small : (a == 16) ≡ false = ground arith in rw e (rw small refl)

read_control :
    (c : ℕ) (s : List ℕ)
    → c < 0x20
    → read (hex 1 0) (hex_digit (c / 16) ∷ hex_digit (c % 16) ∷ s) ≡ cons_onto c (read plain s)
read_control c s small =
    let high =
      read_digit 0 0 (hex_digit (c / 16)) (c / 16) (hex_digit (c % 16) ∷ s)
        (nibble-hex_digit (c / 16) (omega arith)) (omega arith) in
    let low =
      read_last (0 * 16 + c / 16) (hex_digit (c % 16)) (c % 16) s
        (nibble-hex_digit (c % 16) (omega arith)) (omega arith) in
    let value : (0 * 16 + c / 16) * 16 + c % 16 ≡ c = omega arith in
    high ∙ (low ∙ ap (λ (d : ℕ). cons_onto d (read plain s)) value)

read_pair :
    (c : ℕ) (s : List ℕ)
    → (c == b'"' || c == b'\\') ≡ true
    → read plain (b'\\' ∷ c ∷ s) ≡ cons_onto c (read plain s)
unfolding read
read_pair c s e = simp e refl

read_plain :
    (c : ℕ) (s : List ℕ)
    → (c == b'"' || c == b'\\') ≡ false
    → ltb c 0x20 ≡ false
    → read plain (c ∷ s) ≡ cons_onto c (read plain s)
unfolding read
read_plain c s e k = ground (arith, e, k)

read-escape_char :
    (c : ℕ) (rest : List ℕ) → read plain (escape_char c ++ rest) ≡ cons_onto c (read plain rest)
unfolding escape_char
read-escape_char c rest = elim (Bool-cases (c == b'"' || c == b'\\')) [
  | inl e ↦ simp e (read_pair c rest e)
  | inr e ↦ elim (Bool-cases (ltb c 0x20)) [
    | inl k ↦ simp (e, k) (read_zeros _ ∙ read_control c rest (ground (arith, k)))
    | inr k ↦ simp (e, k) (read_plain c rest e k)
  ]
]

escape_char-length : (c : ℕ) → length (escape_char c) ≤ 6
unfolding escape_char
escape_char-length c = ground arith

-- Of a byte that is no control character, two at most.
escape_char-short : (c : ℕ) → 0x20 ≤ c → length (escape_char c) ≤ 2
unfolding escape_char
escape_char-short c h = ground arith

escape_loop-length :
    (size : ℕ) (s : List ℕ) (n : ℕ) → n < size → n + length (escape_loop size n s) < size
unfolding escape_loop
escape_loop-length size [] n h = omega arith
escape_loop-length size (c ∷ s) n h =
    let piece = escape_char c in
    ground (
      arith,
      escape_char-length c,
      escape_loop-length size s (n + length piece),
      length-append {0} piece (escape_loop size (n + length piece) s),
    )

-- No control characters.
abbrev pub Printable : List ℕ → Type 0
Printable [] = Unit {0}
Printable (c ∷ s) = (0x20 ≤ c) × Printable s

read_end : read plain [] ≡ some []
unfolding read
read_end = refl

read-escape_loop :
    (size : ℕ) (s : List ℕ) (n : ℕ)
    → Printable s
    → n + 2 * length s + 6 ≤ size
    → read plain (escape_loop size n s) ≡ some s
unfolding escape_loop
read-escape_loop size [] n fits room = read_end
read-escape_loop size (c ∷ s) n fits room =
    let piece = escape_char c in
    let short : length piece ≤ 2 = escape_char-short c fits.0 in
    let go : ltb (n + 7) size ≡ true = ground (arith, room) in
    rw go (
      read-escape_char c (escape_loop size (n + length piece) s)
      ∙ ap (cons_onto c) (read-escape_loop size s (n + length piece) fits.1 (omega arith)))

-- The characters that are escaped before the room runs out, and those that are not.
kept : ℕ → ℕ → List ℕ → List ℕ
kept size n [] = []
kept size n (c ∷ s) =
    let rest = kept size (n + length (escape_char c)) s in if ltb (n + 7) size then c ∷ rest else []

left : ℕ → ℕ → List ℕ → List ℕ
left size n [] = []
left size n (c ∷ s) =
    let rest = left size (n + length (escape_char c)) s in if ltb (n + 7) size then rest else c ∷ s

kept_and_left : (size : ℕ) (s : List ℕ) (n : ℕ) → s ≡ kept size n s ++ left size n s
unfolding kept left
kept_and_left size [] n = refl
kept_and_left size (c ∷ s) n = elim (Bool-cases (ltb (n + 7) size)) [
  | inl e ↦ simp e (ap (λ (r : List ℕ). c ∷ r) (kept_and_left size s (n + length (escape_char c))))
  | inr e ↦ simp e refl
]

read-kept :
    (size : ℕ) (s : List ℕ) (n : ℕ) → read plain (escape_loop size n s) ≡ some (kept size n s)
unfolding escape_loop kept
read-kept size [] n = read_end
read-kept size (c ∷ s) n = elim (Bool-cases (ltb (n + 7) size)) [
  | inl e ↦
      let m = n + length (escape_char c) in
      simp e (read-escape_char c (escape_loop size m s) ∙ ap (cons_onto c) (read-kept size s m))
  | inr e ↦ simp e read_end
]

-- The escaped text stays shorter than its buffer and reads back as a beginning of the text.
pub json_escape-prefix :
    (size : ℕ) (s : List ℕ)
    → 0 < size
    → (length (json_escape size s) < size)
      × ((t : List ℕ) × (rest : List ℕ) × (s ≡ t ++ rest)
          × (unescape (json_escape size s) ≡ some t))
unfolding json_escape unescape
json_escape-prefix size s h = (
  omega (arith, escape_loop-length size s 0 h),
  (kept size 0 s, left size 0 s, kept_and_left size s 0, read-kept size s 0),
)

-- A text without control characters, escaped into a buffer of at least twice its length and six
-- more bytes, reads back as it was.
pub unescape-json_escape :
    (size : ℕ) (s : List ℕ)
    → Printable s
    → 2 * length s + 6 ≤ size
    → unescape (json_escape size s) ≡ some s
unfolding json_escape unescape
unescape-json_escape size s fits room = read-escape_loop size s 0 fits (omega (arith, room))

pub first-whole : (n : ℕ) (s : List ℕ) → length s ≤ n → first n s ≡ s
unfolding first
first-whole zero [] h = refl
first-whole zero (c ∷ s) h = absurd (omega arith)
first-whole (suc n) [] h = refl
first-whole (suc n) (c ∷ s) h = ap (λ (r : List ℕ). c ∷ r) (first-whole n s (omega arith))

json_escape-length : (size : ℕ) (s : List ℕ) → 0 < size → length (json_escape size s) < size
json_escape-length size s h = (json_escape-prefix size s h).0

meta_text-length : (s : List ℕ) → length (meta_text s) ≡ 87 + length s
unfolding meta_text
meta_text-length s = omega (
  arith,
  length-append {0} s
      (codes "\",\"manufacturer\":{\"name\":\"Waveshare\",\"model\":\"ESP32-S3-ETH-8DI-8RO-C\"}}"),
)

alarm_state_str-length : (a : InputAlarm) → length (alarm_state_str a) ≤ 9
unfolding alarm_state_str
alarm_state_str-length InputAlarm.off = omega arith
alarm_state_str-length InputAlarm.warn = omega arith
alarm_state_str-length InputAlarm.alarm = omega arith
alarm_state_str-length InputAlarm.emergency = omega arith

raised_text-length : (a s : List ℕ) → length (raised_text a s) ≡ 53 + length a + length s
unfolding raised_text
raised_text-length a s =
    let rest = codes "\",\"method\":[\"visual\",\"sound\"],\"message\":\"" ++ (s ++ codes "\"}") in
    omega (arith, length-append {0} a rest, length-append {0} s (codes "\"}"))

-- The metadata of a channel and the notification of an alarm that is raised always fit their
-- buffers: the object is never cut, whatever the name, the message and the kind of alarm are.
pub json-whole :
    (channel_name : List ℕ) (input : InputCfg)
    → (meta_json channel_name ≡ meta_text (json_escape 72 channel_name))
      × (notification_json input true
          ≡ raised_text (alarm_state_str input.alarm) (json_escape 80 (raw_message input)))
unfolding meta_json notification_json
json-whole channel_name input =
    let shown = json_escape 72 channel_name in
    let msg = json_escape 80 (raw_message input) in
    (
      first-whole 159 (meta_text shown)
          (omega (arith, meta_text-length shown, json_escape-length 72 channel_name (omega arith))),
      first-whole 159 (raised_text (alarm_state_str input.alarm) msg) (
          omega (
            arith,
            raised_text-length (alarm_state_str input.alarm) msg,
            alarm_state_str-length input.alarm,
            json_escape-length 80 (raw_message input) (omega arith),
          )),
    )
