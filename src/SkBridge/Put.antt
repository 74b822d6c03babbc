-- ===== src/SkBridge/Put.antt =====
-- PUT requests on the states of the relays: parse_on() and on_put() of sk_bridge.c. strtod() of the C
-- library is a parameter: the number, and what follows it.
use signalk_esp_os_8relay.Base.{
  ℕ, ◌≡◌, refl, ap, ◌∙◌, if◌then◌else◌, Bool, true, false, not, ◌&&◌, ◌||◌, ◌==◌, leb, List, [],
  ◌∷◌, ◌++◌, length, codes, after_word, Option, none, some,
}
use signalk_esp_os_8relay.Board.{Status, ok, fail, invalid_arg, other}

-- isspace
unfoldable pub is_space : ℕ → Bool
is_space c = c == 32 || (leb 9 c && leb c 13)

unfoldable pub skip_spaces : List ℕ → List ℕ
unfolding is_space
skip_spaces [] = []
skip_spaces (c ∷ s) = let rest = skip_spaces s in if is_space c then rest else c ∷ s

-- `*v ? -1 : on` after white space; `none` is -1.
unfoldable pub at_end : List ℕ → Bool → Option Bool
at_end [] on = some on
at_end (c ∷ s) on = none

-- strtod(), and what `d == 1` and `d == 0` say of its results.
pub record Strtod : Type 1 where
  pub Double : Type 0
  pub read : List ℕ → Double × List ℕ
  pub is_one : Double → Bool
  pub is_zero : Double → Bool

-- `d == 1 ? 1 : d == 0 ? 0 : -1`
unfoldable pub switch_value : Bool → Bool → Option Bool
switch_value one nought = if one then some true else if nought then some false else none

-- The number, if the text is one up to its end.
unfoldable pub parse_number : Strtod → List ℕ → Option Bool
unfolding skip_spaces switch_value
parse_number strtod v =
    let (d, rest) = strtod.read v in
    if length rest == length v
    then none
    else if not (length (skip_spaces rest) == 0)
    then none
    else switch_value (strtod.is_one d) (strtod.is_zero d)

-- The two words, as after_word() finds them, and else the number.
unfoldable pub parse_value : Strtod → List ℕ → Option (List ℕ) → Option (List ℕ) → Option Bool
unfolding parse_number at_end skip_spaces
parse_value strtod v (some rest) f = at_end (skip_spaces rest) true
parse_value strtod v none (some rest) = at_end (skip_spaces rest) false
parse_value strtod v none none = parse_number strtod v

-- parse_on
unfoldable pub parse_on : Strtod → List ℕ → Option Bool
unfolding parse_value skip_spaces after_word
parse_on strtod s =
    let v = skip_spaces s in
    parse_value strtod v (after_word (codes "true") v) (after_word (codes "false") v)

-- `set_relay(ch, on) == ESP_OK ? ESP_OK : ESP_FAIL`
unfoldable pub put_status : Status → Status
put_status ok = ok
put_status (fail e) = fail (other 1)

module _ {W : Type 0} (set_relay : ℕ → Bool → W → W × Status) where
  -- on_put() after the value is parsed.
  unfoldable pub put_value : ℕ → Option Bool → W → W × Status
  unfolding put_status
  put_value ch none w = (w, fail invalid_arg)
  put_value ch (some on) w = let (w1, status) = set_relay ch on w in (w1, put_status status)

  -- on_put
  unfoldable pub on_put : Strtod → ℕ → List ℕ → W → W × Status
  unfolding put_value
  on_put strtod ch value_json w = put_value ch (parse_on strtod value_json) w

abbrev pub AllSpaces : List ℕ → Type 0
AllSpaces [] = Unit {0}
AllSpaces (c ∷ s) = (is_space c ≡ true) × AllSpaces s

skip_spaces-append : (a s : List ℕ) → AllSpaces a → skip_spaces (a ++ s) ≡ skip_spaces s
unfolding skip_spaces
skip_spaces-append [] s h = refl
skip_spaces-append (c ∷ a) s h = rw h.0 (skip_spaces-append a s h.1)

skip_spaces-all : (a : List ℕ) → AllSpaces a → skip_spaces a ≡ []
unfolding skip_spaces
skip_spaces-all [] h = refl
skip_spaces-all (c ∷ a) h = rw h.0 (skip_spaces-all a h.1)

abbrev pub word_of : Bool → List ℕ
word_of true = codes "true"
word_of false = codes "false"

parse_on-word :
    (strtod : Strtod) (on : Bool) (a s : List ℕ)
    → AllSpaces a
    → parse_on strtod (a ++ (word_of on ++ s)) ≡ at_end (skip_spaces s) on
unfolding parse_on
parse_on-word strtod true a s h = rw (skip_spaces-append a (word_of true ++ s) h) refl
parse_on-word strtod false a s h = rw (skip_spaces-append a (word_of false ++ s) h) refl

at_end-spaces : (b : List ℕ) (on : Bool) → AllSpaces b → at_end (skip_spaces b) on ≡ some on
unfolding at_end
at_end-spaces b on h = rw (skip_spaces-all b h) refl

at_end-other :
    (b : List ℕ) (c : ℕ) (s : List ℕ) (on : Bool)
    → AllSpaces b
    → is_space c ≡ false
    → at_end (skip_spaces (b ++ c ∷ s)) on ≡ none
unfolding at_end skip_spaces
at_end-other b c s on h e = rw (skip_spaces-append b (c ∷ s) h) (rw e refl)

module _ {W : Type 0} (set_relay : ℕ → Bool → W → W × Status) (strtod : Strtod) (ch : ℕ) (on : Bool)
    (a b : List ℕ) (w : W) where
  -- The word true or false, with white space around it, switches the relay and answers with the
  -- outcome of that; with any other character behind it nothing is switched and the request is
  -- refused.
  pub on_put-word :
      (c : ℕ) (s : List ℕ)
      → AllSpaces a
      → AllSpaces b
      → is_space c ≡ false
      → (on_put set_relay strtod ch (a ++ (word_of on ++ b)) w
          ≡ ((set_relay ch on w).0, put_status (set_relay ch on w).1))
        × (on_put set_relay strtod ch (a ++ (word_of on ++ (b ++ c ∷ s))) w ≡ (w, fail invalid_arg))
  unfolding on_put
  on_put-word c s before after other_char = (
    ap (λ (v : Option Bool). put_value set_relay ch v w)
        (parse_on-word strtod on a b before ∙ at_end-spaces b on after),
    ap (λ (v : Option Bool). put_value set_relay ch v w)
        (parse_on-word strtod on a (b ++ c ∷ s) before ∙ at_end-other b c s on after other_char),
  )
