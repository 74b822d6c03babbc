-- ===== src/SkBridge/Paths.antt =====
-- The paths of the bridge are different texts, and whole, as long as the two banks have different
-- ids.
use signalk_esp_os_8relay.Base.{
  ℕ, zero, suc, ◌+◌, ◌-◌, ◌*◌, ◌/◌, ◌%◌, ◌<◌, ◌≤◌, ◌≡◌, refl, sym, ◌∙◌, ap, arith, Bool-cases, inl,
  inr, if◌then◌else◌, Bool, true, false, ◌&&◌, ◌==◌, ltb, List, [], ◌∷◌, ◌++◌, length, char_at,
  length-append, codes,
}
use signalk_esp_os_8relay.DeviceConfig.{Config}
use signalk_esp_os_8relay.SkBridge.Text.{
  Tree, Leaf, switches, controls, state, name, run_time, cycles, order, kind, manufacturer_name,
  manufacturer_model, leaf_text, digits, decimal, bank_of, path_text, make_path,
}
use signalk_esp_os_8relay.SkBridge.Publish.{inputs_on}
use signalk_esp_os_8relay.SkBridge.Escape.{first-whole}

abbrev AllDigits : List ℕ → Type 0
AllDigits [] = Unit {0}
AllDigits (c ∷ s) = (48 ≤ c) × (c < 58) × AllDigits s

AllDigits-append : (xs ys : List ℕ) → AllDigits xs → AllDigits ys → AllDigits (xs ++ ys)
AllDigits-append [] ys h g = g
AllDigits-append (x ∷ xs) ys h g = (h.0, h.1, AllDigits-append xs ys h.2 g)

-- Two numbers end at the same separator.
cut :
    (sep : ℕ) (d e r s : List ℕ)
    → sep < 48
    → AllDigits d
    → AllDigits e
    → d ++ (sep ∷ r) ≡ e ++ (sep ∷ s)
    → (d ≡ e) × (r ≡ s)
cut sep [] [] r s low h g eq = (refl, cc)
cut sep [] (y ∷ e) r s low h g eq =
    let same : sep ≡ y = ap (λ (t : List ℕ). char_at t 0) eq in absurd (omega (arith, g.0))
cut sep (x ∷ d) [] r s low h g eq =
    let same : x ≡ sep = ap (λ (t : List ℕ). char_at t 0) eq in absurd (omega (arith, h.0))
cut sep (x ∷ d) (y ∷ e) r s low h g eq =
    let same : x ≡ y = ap (λ (t : List ℕ). char_at t 0) eq in
    let (a, b) = cut sep d e r s low h.2 g.2 (cc) in ((cc), b)

-- The number that digits stand for, behind those read so far.
number_of : ℕ → List ℕ → ℕ
number_of acc [] = acc
number_of acc (c ∷ s) = number_of (acc * 10 + (c - 48)) s

number_of-append :
    (s : List ℕ) (acc c : ℕ) → number_of acc (s ++ c ∷ []) ≡ number_of acc s * 10 + (c - 48)
unfolding number_of
number_of-append [] acc c = refl
number_of-append (d ∷ s) acc c = number_of-append s (acc * 10 + (d - 48)) c

abbrev room : ℕ → ℕ
room zero = 1
room (suc f) = 10 * room f

digits-AllDigits : (f n : ℕ) → AllDigits (digits f n)
unfolding digits
digits-AllDigits zero n = tt
digits-AllDigits (suc f) n = elim (Bool-cases (ltb n 10)) [
  | inl e ↦ rw e (omega arith, ground (arith, e), tt)
  | inr e ↦ rw e (
      AllDigits-append (digits f (n / 10)) ((48 + n % 10) ∷ []) (digits-AllDigits f (n / 10))
        (omega arith, omega arith, tt))
]

number_of-digits : (f n : ℕ) → n < room f → number_of 0 (digits f n) ≡ n
unfolding digits number_of
number_of-digits zero n h = omega arith
number_of-digits (suc f) n h = elim (Bool-cases (ltb n 10)) [
  | inl e ↦ rw e (omega arith)
  | inr e ↦ rw e (
      number_of-append (digits f (n / 10)) 0 (48 + n % 10)
      ∙ omega (arith, number_of-digits f (n / 10) (omega (arith, h))))
]

digits-length : (f n k : ℕ) → n < room (suc k) → length (digits f n) ≤ suc k
unfolding digits
digits-length zero n k h = omega arith
digits-length (suc f) n zero h = let e : ltb n 10 ≡ true = ground (arith, h) in rw e (omega arith)
digits-length (suc f) n (suc k) h = elim (Bool-cases (ltb n 10)) [
  | inl e ↦ rw e (omega arith)
  | inr e ↦ rw e (
      omega (
        arith,
        length-append {0} (digits f (n / 10)) ((48 + n % 10) ∷ []),
        digits-length f (n / 10) k (omega (arith, h)),
      ))
]

decimal-AllDigits : (n : ℕ) → AllDigits (decimal n)
unfolding decimal
decimal-AllDigits n = digits-AllDigits 10 n

decimal-length : (n : ℕ) → n < 256 → length (decimal n) ≤ 3
unfolding decimal
decimal-length n h = digits-length 10 n 2 (omega (arith, h))

decimal-injective : (m n : ℕ) → m < 256 → n < 256 → decimal m ≡ decimal n → m ≡ n
unfolding decimal
decimal-injective m n hm hn e =
    sym (number_of-digits 10 m (omega (arith, hm)))
    ∙ (ap (number_of 0) e ∙ number_of-digits 10 n (omega (arith, hn)))

-- The leaf that a text names.
leaf_of : List ℕ → Leaf
leaf_of s =
    if length s == 5 && char_at s 0 == b's'
    then state
    else if length s == 5
    then order
    else if length s == 4 && char_at s 0 == b'n'
    then name
    else if length s == 4
    then kind
    else if length s == 7
    then run_time
    else if length s == 6
    then cycles
    else if length s == 17
    then manufacturer_name
    else manufacturer_model

leaf_of-text : (l : Leaf) → leaf_of (leaf_text l) ≡ l
unfolding leaf_of leaf_text
leaf_of-text state = refl
leaf_of-text name = refl
leaf_of-text run_time = refl
leaf_of-text cycles = refl
leaf_of-text order = refl
leaf_of-text kind = refl
leaf_of-text manufacturer_name = refl
leaf_of-text manufacturer_model = refl

leaf_text-injective : (a b : Leaf) → leaf_text a ≡ leaf_text b → a ≡ b
leaf_text-injective a b e = sym (leaf_of-text a) ∙ (ap leaf_of e ∙ leaf_of-text b)

leaf_text-length : (l : Leaf) → length (leaf_text l) ≤ 18
unfolding leaf_text
leaf_text-length state = omega arith
leaf_text-length name = omega arith
leaf_text-length run_time = omega arith
leaf_text-length cycles = omega arith
leaf_text-length order = omega arith
leaf_text-length kind = omega arith
leaf_text-length manufacturer_name = omega arith
leaf_text-length manufacturer_model = omega arith

word_length : (input : Bool) → length (if input then codes "input" else codes "relay") ≡ 5
word_length true = refl
word_length false = refl

-- No path has more than 66 bytes.
path_text-length :
    (t : Tree) (bank : ℕ) (input : Bool) (ch : ℕ) (leaf : List ℕ)
    → bank < 256
    → ch < 256
    → length leaf ≤ 18
    → length (path_text t bank input ch leaf) ≤ 66
unfolding path_text
path_text-length switches bank input ch leaf hb hc hl =
    let tail = decimal ch ++ (46 ∷ leaf) in
    omega (
      arith,
      length-append {0} (decimal bank) (46 ∷ tail),
      length-append {0} (decimal ch) (46 ∷ leaf),
      decimal-length bank hb,
      decimal-length ch hc,
    )
path_text-length controls bank input ch leaf hb hc hl =
    let word = if input then codes "input" else codes "relay" in
    let tail = decimal ch ++ (46 ∷ leaf) in
    omega (
      arith,
      length-append {0} (decimal bank) (45 ∷ (word ++ tail)),
      length-append {0} word tail,
      word_length input,
      length-append {0} (decimal ch) (46 ∷ leaf),
      decimal-length bank hb,
      decimal-length ch hc,
    )

-- The same without the words that every path of the tree starts with.
drop : ℕ → List ℕ → List ℕ
drop zero s = s
drop (suc n) [] = []
drop (suc n) (c ∷ s) = drop n s

drop_word :
    (input : Bool) (s : List ℕ) → drop 5 ((if input then codes "input" else codes "relay") ++ s) ≡ s
unfolding drop
drop_word true s = refl
drop_word false s = refl

path_text-injective :
    (t u : Tree) (bank bank' : ℕ) (input input' : Bool) (ch ch' : ℕ) (leaf leaf' : List ℕ)
    → bank < 256
    → bank' < 256
    → ch < 256
    → ch' < 256
    → path_text t bank input ch leaf ≡ path_text u bank' input' ch' leaf'
    → (t ≡ u) × (bank ≡ bank') × (ch ≡ ch') × (leaf ≡ leaf')
unfolding path_text drop
path_text-injective switches switches bank bank' input input' ch ch' leaf leaf' hb hb' hc hc' e =
    let (eb, r) =
      cut 46 (decimal bank) (decimal bank') _ _ (omega arith) (decimal-AllDigits bank)
        (decimal-AllDigits bank') (ap (drop 25) e) in
    let (ec, l) =
      cut 46 (decimal ch) (decimal ch') _ _ (omega arith) (decimal-AllDigits ch)
        (decimal-AllDigits ch') r in
    (refl, decimal-injective bank bank' hb hb' eb, decimal-injective ch ch' hc hc' ec, l)
path_text-injective switches controls bank bank' input input' ch ch' leaf leaf' hb hb' hc hc' e =
    let other : b's' ≡ b'c' = ap (λ (s : List ℕ). char_at s 11) e in absurd (omega (arith, other))
path_text-injective controls switches bank bank' input input' ch ch' leaf leaf' hb hb' hc hc' e =
    let other : b'c' ≡ b's' = ap (λ (s : List ℕ). char_at s 11) e in absurd (omega (arith, other))
path_text-injective controls controls bank bank' input input' ch ch' leaf leaf' hb hb' hc hc' e =
    let (eb, r) =
      cut 45 (decimal bank) (decimal bank') _ _ (omega arith) (decimal-AllDigits bank)
        (decimal-AllDigits bank') (ap (drop 34) e) in
    let (ec, l) =
      cut 46 (decimal ch) (decimal ch') _ _ (omega arith) (decimal-AllDigits ch)
        (decimal-AllDigits ch') (sym (drop_word input _) ∙ (ap (drop 5) r ∙ drop_word input' _)) in
    (refl, decimal-injective bank bank' hb hb' eb, decimal-injective ch ch' hc hc' ec, l)

-- The settings give the banks different ids.
banks_differ :
    (cfg : Config) (a b : Bool) → inputs_on cfg ≡ true → bank_of cfg a ≡ bank_of cfg b → a ≡ b
unfolding inputs_on bank_of
banks_differ cfg true true on e = refl
banks_differ cfg true false on e = ground (arith, on, e)
banks_differ cfg false true on e = ground (arith, on, e)
banks_differ cfg false false on e = refl

module _ (cfg : Config) (relays : cfg.bank_id < 256) (inputs : cfg.input_bank_id < 256) where
  bank_of-bound : (input : Bool) → bank_of cfg input < 256
  unfolding bank_of
  bank_of-bound true = inputs
  bank_of-bound false = relays

  make_path-whole :
      (t : Tree) (input : Bool) (ch : ℕ) (l : Leaf)
      → ch < 256
      → make_path cfg t input ch l ≡ path_text t (bank_of cfg input) input ch (leaf_text l)
  unfolding make_path
  make_path-whole t input ch l h =
      first-whole 95 (path_text t (bank_of cfg input) input ch (leaf_text l)) (
        omega (
          arith,
          path_text-length t (bank_of cfg input) input ch (leaf_text l) (bank_of-bound input) h
              (leaf_text-length l),
        ))

  -- With the two banks told apart and below 256 and channels below 256, two paths are equal only if
  -- they are for the same tree, bank, channel and leaf.
  pub make_path-injective :
      (t u : Tree) (input input' : Bool) (ch ch' : ℕ) (l l' : Leaf)
      → inputs_on cfg ≡ true
      → ch < 256
      → ch' < 256
      → make_path cfg t input ch l ≡ make_path cfg u input' ch' l'
      → (t ≡ u) × (input ≡ input') × (ch ≡ ch') × (l ≡ l')
  make_path-injective t u input input' ch ch' l l' on hc hc' e =
      let whole =
        sym (make_path-whole t input ch l hc) ∙ (e ∙ make_path-whole u input' ch' l' hc') in
      let (et, eb, ec, el) =
        path_text-injective t u _ _ input input' ch ch' _ _ (bank_of-bound input)
          (bank_of-bound input') hc hc' whole in
      (et, banks_differ cfg input input' on eb, ec, leaf_text-injective l l' el)
