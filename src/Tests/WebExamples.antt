-- ===== src/Tests/WebExamples.antt =====
-- The theorem on web_ui_logic.c at a path.
use signalk_esp_os_8relay.Base.{ℕ, ◌+◌, ◌≡◌, refl, arith, List, [], ◌∷◌, ◌++◌, after_word}
use signalk_esp_os_8relay.WebUi.{ends, parse_channel, parse_reset_channel, reset_suffix}
use signalk_esp_os_8relay.WebUi.Paths.{parse_channel-path}

-- "/api", and "?x".
abbrev api : List ℕ
api = b'/' ∷ b'a' ∷ b'p' ∷ b'i' ∷ []

abbrev query : List ℕ
query = b'?' ∷ b'x' ∷ []

parse_channel-path_example :
    (parse_channel (api ++ (b'/' ∷ (b'1' + 2) ∷ query)) api ≡ 3)
    × (parse_reset_channel (api ++ (b'/' ∷ (b'1' + 2) ∷ (reset_suffix ++ query))) api ≡ 3)
unfolding ends
parse_channel-path_example = parse_channel-path api query 2 (omega arith) refl

-- Channel 9 does not exist.
no_channel : parse_channel (api ++ (b'/' ∷ b'9' ∷ [])) api ≡ 0
unfolding parse_channel after_word
no_channel = refl
