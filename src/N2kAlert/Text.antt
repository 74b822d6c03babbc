-- ===== src/N2kAlert/Text.antt =====
-- The strings of an alert's text stay within the buffer.
use signalk_esp_os_8relay.Base.{
  ℕ, zero, suc, ◌+◌, ◌-◌, ◌<◌, ◌≤◌, if◌then◌else◌, false, ltb, leb, List, [], ◌∷◌, ◌++◌, length,
  length-append, ◌≡◌, refl, ap, ◌∙◌, arith, ◌⊎◌, inl, inr, Bool-cases,
}
use package.signalk_esp_os_8relay.N2kAlert.{
  AlertId, text_max_len, encode_header, next_code_point, is_ascii, first, wide_loop, characters,
  put_string, encode_text,
}

first-length : (n : ℕ) (s : List ℕ) → length (first n s) ≤ n
unfolding first
first-length zero s = omega arith
first-length (suc n) [] = omega arith
first-length (suc n) (c ∷ s) = omega (arith, first-length n s)

wide_loop-length :
    (rounds room n : ℕ) (s : List ℕ) → n ≤ room → n + length (wide_loop rounds room n s) ≤ room
unfolding wide_loop
wide_loop-length zero room n s h = omega arith
wide_loop-length (suc rounds) room n [] h = omega arith
wide_loop-length (suc rounds) room n (c ∷ s) h = elim (Bool-cases (leb (n + 2) room)) [
  | inl e ↦ simp e (
      let rest = wide_loop-length rounds room (n + 2) (next_code_point c s).1 (ground (arith, e)) in
      omega (arith, rest))
  | inr e ↦ simp e (omega arith)
]

-- More rounds than `room` change nothing: the loop ends by its own test.
wide_loop-enough :
    (more rounds room n : ℕ) (s : List ℕ)
    → room < n + rounds + rounds
    → wide_loop (rounds + more) room n s ≡ wide_loop rounds room n s
unfolding wide_loop
wide_loop-enough zero rounds room n s h =
    let same : rounds + 0 ≡ rounds = omega arith in rw same refl
wide_loop-enough (suc more) zero room n [] h =
    let same : 0 + suc more ≡ suc more = omega arith in rw same refl
wide_loop-enough (suc more) zero room n (c ∷ s) h =
    let same : 0 + suc more ≡ suc more = omega arith in
    let full : leb (n + 2) room ≡ false = ground arith in rw same (simp full refl)
wide_loop-enough (suc more) (suc rounds) room n [] h =
    let same : suc rounds + suc more ≡ suc (rounds + suc more) = omega arith in rw same refl
wide_loop-enough (suc more) (suc rounds) room n (c ∷ s) h =
    let same : suc rounds + suc more ≡ suc (rounds + suc more) = omega arith in
    let rest =
      wide_loop-enough (suc more) rounds room (n + 2) (next_code_point c s).1 (omega arith) in
    rw same (simp rest refl)

characters-length : (s : List ℕ) (room : ℕ) → 2 ≤ room → 2 + length (characters s room) ≤ room
unfolding characters
characters-length s room h = elim (Bool-cases (is_ascii s)) [
  | inl e ↦ simp e (
      let fit = if ltb (length s) (room - 2) then length s else room - 2 in
      let small : fit ≤ room - 2 = ground arith in omega (arith, first-length fit s))
  | inr e ↦ simp e (wide_loop-length room room 2 s h)
]

put_string-length :
    (s : List ℕ) (room : ℕ)
    → 2 ≤ room
    → (2 ≤ length (put_string s room)) × (length (put_string s room) ≤ room)
unfolding put_string
put_string-length s room h =
    let at_most : ℕ = if ltb 255 room then 255 else room in
    let low : 2 ≤ at_most = ground arith in
    let high : at_most ≤ room = ground arith in
    omega (arith, characters-length s at_most low, low, high)

encode_header-length : (a : AlertId) → length (encode_header a) ≡ 16
unfolding encode_header
encode_header-length a = refl

module _ (id : AlertId) (description location : List ℕ) (size : ℕ) where
  abbrev start : List ℕ
  start = encode_header id ++ (0 ∷ [])

  -- The text for a buffer of `room` bytes.
  abbrev text : ℕ → List ℕ
  text room =
      let described = put_string description (room - length start - 2) in
      start ++ (described ++ put_string location (room - length start - length described))

  text-length : (room : ℕ) → 21 ≤ room → (21 ≤ length (text room)) × (length (text room) ≤ room)
  text-length room h =
      let s : length start ≡ 17 =
        length-append (encode_header id) (0 ∷ []) ∙ ap (λ k. k + 1) (encode_header-length id) in
      let described = put_string description (room - length start - 2) in
      let d = put_string-length description (room - length start - 2) (omega (arith, s)) in
      let l =
        put_string-length location (room - length start - length described) (omega (arith, s, d)) in
      let a =
        length-append start
          (described ++ put_string location (room - length start - length described)) in
      let b =
        length-append described (put_string location (room - length start - length described)) in
      omega (arith, s, d, l, a, b)

  -- The text payload of an alert is never longer than the buffer nor than 223 bytes, and a buffer
  -- of at least 21 bytes gets at least the header, the language and the two empty strings, whatever
  -- the two texts are.
  pub encode_text-length :
      (length (encode_text id description location size) ≤ size)
      × (length (encode_text id description location size) ≤ 223)
      × ((size < 21) ⊎ (21 ≤ length (encode_text id description location size)))
  unfolding encode_text
  encode_text-length =
      let at_most : ℕ = if ltb text_max_len size then text_max_len else size in
      elim (Bool-cases (ltb at_most 21)) [
        | inl e ↦
            let small : size < 21 = ground (arith, e) in
            simp e (omega arith, omega arith, inl small)
        | inr e ↦
            let big : 21 ≤ at_most = ground (arith, e) in
            let within : (at_most ≤ size) × (at_most ≤ 223) = ground arith in
            let t = text-length at_most big in
            simp e (omega (arith, t, within), omega (arith, t, within), inr (omega (arith, t)))
      ]
