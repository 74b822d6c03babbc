-- ===== src/N2kAlert/Header.antt =====
-- The header that every alert message starts with comes back as it was sent.
use signalk_esp_os_8relay.Base.{
  ℕ, zero, suc, ◌+◌, ◌*◌, ◌/◌, ◌^◌, ◌<◌, ◌≤◌, List, ◌++◌, bit_or, bit_and, ◌≡◌, refl, sym, ap, ◌∙◌,
  arith,
}
use native.Mathlib.Nat.{div-le_self, div-div-eq-div-mul}
use native.Mathlib.Numerals.{towards_suc}
use signalk_esp_os_8relay.Base.Words.{u8, u16, u64}
use signalk_esp_os_8relay.Base.Join.{bit_or_join, bit_or_append, bit_and_nibble}
use package.signalk_esp_os_8relay.N2kAlert.{
  AlertId, get_loop, get_u64, nibbles, encode_header, byte_at, decode_header,
}

pow_bytes : (i : ℕ) → 2 ^ (8 * suc i) ≡ 2 ^ (8 * i) * 256
pow_bytes i = let e : 8 * suc i ≡ 8 * i + 8 = omega arith in rw e (simp towards_suc (omega arith))

get_loop-bytes :
    (p : ℕ → ℕ) (v i : ℕ)
    → v < 2 ^ 64
    → ((j : ℕ) → j < i → p j ≡ u8 (v / 2 ^ (8 * j)))
    → get_loop p (v / 2 ^ (8 * i)) i ≡ v
unfolding get_loop
get_loop-bytes p v zero h bytes = omega arith
get_loop-bytes p v (suc i) h bytes =
    let q = v / 2 ^ (8 * i) in
    let small : q ≤ v = div-le_self v (2 ^ (8 * i)) in
    let up : v / 2 ^ (8 * suc i) ≡ q / 256 =
      ap (λ d. v / d) (pow_bytes i) ∙ sym (div-div-eq-div-mul v (2 ^ (8 * i)) 256) in
    let keep : u64 (q / 256 * 2 ^ 8) ≡ q / 256 * 2 ^ 8 = omega arith in
    let joined : bit_or (q / 256 * 2 ^ 8) (u8 q) ≡ q =
      bit_or_append 8 (q / 256) (u8 q) (omega arith) ∙ omega arith in
    rw (up, keep, bytes i (omega arith), joined)
      (get_loop-bytes p v i h (λ j l. bytes j (omega arith)))

-- The eight bytes of a number, wherever they stand.
pub get_u64-put :
    (v : ℕ) (p : ℕ → ℕ)
    → v < 2 ^ 64
    → ((j : ℕ) → j < 8 → p j ≡ u8 (v / 2 ^ (8 * j)))
    → get_u64 p ≡ v
get_u64-put v p h bytes =
    let none : v / 2 ^ (8 * 8) ≡ 0 = omega arith in
    ap (λ a. get_loop p a 8) (sym none) ∙ get_loop-bytes p v 8 h bytes

-- The fields fit their types and their bits of the message.
pub record IsId (a : AlertId) : Type 0 where
  pub alert_type : a.alert_type < 16
  pub category : a.category < 16
  pub id : a.id < 2 ^ 16
  pub source_name : a.source_name < 2 ^ 64

nibbles_lem : (low high : ℕ) → low < 16 → high < 16 → nibbles low high ≡ high * 16 + low
nibbles_lem low high h k =
    let same : bit_and low 15 ≡ low = bit_and_nibble low ∙ omega arith in
    rw same (rw (bit_or_join 4 high low h) (omega arith))

nibbles-low : (low high : ℕ) → low < 16 → high < 16 → bit_and (nibbles low high) 15 ≡ low
nibbles-low low high h k =
    ap (λ b. bit_and b 15) (nibbles_lem low high h k)
    ∙ (bit_and_nibble (high * 16 + low) ∙ omega arith)

nibbles-high : (low high : ℕ) → low < 16 → high < 16 → nibbles low high / 2 ^ 4 ≡ high
nibbles-high low high h k = ap (λ b. b / 16) (nibbles_lem low high h k) ∙ omega arith

put_u16-get : (v : ℕ) → v < 2 ^ 16 → u16 (bit_or (u8 v) (u8 (v / 2 ^ 8) * 2 ^ 8)) ≡ v
put_u16-get v h = rw (bit_or_join 8 (u8 (v / 2 ^ 8)) (u8 v) (omega arith)) (omega arith)

module _ (a : AlertId) (fits : IsId a) (rest : List ℕ) where
  abbrev sent : List ℕ
  sent = encode_header a ++ rest

  name_bytes : (j : ℕ) → j < 8 → byte_at sent (5 + j) ≡ u8 (a.source_name / 2 ^ (8 * j))
  unfolding encode_header
  name_bytes zero l = refl
  name_bytes (suc zero) l = refl
  name_bytes (suc (suc zero)) l = refl
  name_bytes (suc (suc (suc zero))) l = refl
  name_bytes (suc (suc (suc (suc zero)))) l = refl
  name_bytes (suc (suc (suc (suc (suc zero))))) l = refl
  name_bytes (suc (suc (suc (suc (suc (suc zero)))))) l = refl
  name_bytes (suc (suc (suc (suc (suc (suc (suc zero))))))) l = refl
  name_bytes (suc (suc (suc (suc (suc (suc (suc (suc j)))))))) l = absurd (omega arith)

  -- The header of an alert message, read from any payload that starts with it, gives back the nine
  -- fields it was written from, if they fit the widths of the message.
  pub decode_header-encode : decode_header (byte_at sent) ≡ a
  unfolding decode_header encode_header
  decode_header-encode =
      let t = nibbles-low a.alert_type a.category fits.alert_type fits.category in
      let c = nibbles-high a.alert_type a.category fits.alert_type fits.category in
      let i = put_u16-get a.id fits.id in
      let n = get_u64-put a.source_name (λ j. byte_at sent (5 + j)) fits.source_name name_bytes in
      λ k. record a { alert_type = t k; category = c k; id = i k; source_name = n k }
