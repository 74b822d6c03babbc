-- ===== src/WebUi/Paths.antt =====
-- Which paths of a request name a channel, and that none is taken for two of them.
use signalk_esp_os_8relay.Base.{
  ℕ, suc, ◌+◌, ◌-◌, ◌<◌, ◌≡◌, ◌⊎◌, inl, inr, refl, ap, ◌∙◌, arith, true, false, Bool-cases, ◌==◌,
  List, [], ◌∷◌, ◌++◌, Option, none, some, after_word,
}
use package.signalk_esp_os_8relay.WebUi.{
  is_channel_digit, ends, channel_of, parse_channel, reset_suffix, ends_after, reset_channel_of,
  parse_reset_channel,
}

after_word-append : (word rest : List ℕ) → after_word word (word ++ rest) ≡ some rest
unfolding after_word
after_word-append [] rest = refl
after_word-append (d ∷ word) rest =
    let same : (d == d) ≡ true = ground arith in simp (same, after_word-append word rest) refl

digit_lem : (k : ℕ) → k < 8 → is_channel_digit (b'1' + k) ≡ true
unfolding is_channel_digit
digit_lem k few = ground arith

module _ (k : ℕ) (few : k < 8) (rest : List ℕ) (stop : ends rest ≡ true) where
  number : b'1' + k - b'0' ≡ suc k
  number = omega arith

  channel_of-path : channel_of (some (b'/' ∷ (b'1' + k) ∷ rest)) ≡ suc k
  unfolding channel_of
  channel_of-path = simp (digit_lem k few, stop) number

  reset_channel_of-path :
      reset_channel_of (some (b'/' ∷ (b'1' + k) ∷ (reset_suffix ++ rest))) ≡ suc k
  unfolding reset_channel_of ends_after
  reset_channel_of-path =
      let after : ends_after (after_word reset_suffix (reset_suffix ++ rest)) ≡ true =
        ap ends_after (after_word-append reset_suffix rest) ∙ stop in
      simp (digit_lem k few, after) number

-- The path of a channel from 1 to 8, and the path of its reset, behind any prefix and with or
-- without a query string, are read back as that channel.
pub parse_channel-path :
    (prefix rest : List ℕ) (k : ℕ)
    → k < 8
    → ends rest ≡ true
    → (parse_channel (prefix ++ (b'/' ∷ (b'1' + k) ∷ rest)) prefix ≡ suc k)
      × (parse_reset_channel (prefix ++ (b'/' ∷ (b'1' + k) ∷ (reset_suffix ++ rest))) prefix
          ≡ suc k)
unfolding parse_channel parse_reset_channel
parse_channel-path prefix rest k few stop = (
  ap channel_of (after_word-append prefix (b'/' ∷ (b'1' + k) ∷ rest))
      ∙ channel_of-path k few rest stop,
  ap reset_channel_of (after_word-append prefix (b'/' ∷ (b'1' + k) ∷ (reset_suffix ++ rest)))
      ∙ reset_channel_of-path k few rest stop,
)

no_suffix : (rest : List ℕ) → ends rest ≡ true → after_word reset_suffix rest ≡ none
unfolding ends after_word
no_suffix [] stop = refl
no_suffix (c ∷ rest) stop =
    let other : (c == b'/') ≡ false = ground (arith, stop) in simp other refl

channel_of_or_reset : (o : Option (List ℕ)) → (channel_of o ≡ 0) ⊎ (reset_channel_of o ≡ 0)
unfolding channel_of reset_channel_of ends_after
channel_of_or_reset none = inl refl
channel_of_or_reset (some []) = inl refl
channel_of_or_reset (some (slash ∷ [])) = inl refl
channel_of_or_reset (some (slash ∷ c ∷ rest)) = elim (Bool-cases (ends rest)) [
  | inl stop ↦ inr (simp (no_suffix rest stop) (ground arith))
  | inr more ↦ inl (simp more (ground arith))
]

-- No path is taken for a channel by both functions.
parse_channel_or_reset :
    (uri prefix : List ℕ) → (parse_channel uri prefix ≡ 0) ⊎ (parse_reset_channel uri prefix ≡ 0)
unfolding parse_channel parse_reset_channel
parse_channel_or_reset uri prefix = channel_of_or_reset (after_word prefix uri)
