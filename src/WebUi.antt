-- ===== src/WebUi.antt =====
-- components/web_ui/src/web_ui_logic.c: the channel in the path of a request, and the relays that
-- "all on" leaves out. What the JSON library builds and reads is left out.
pub mod Paths
use signalk_esp_os_8relay.Base.{
  ℕ, zero, suc, ◌-◌, if◌then◌else◌, Bool, false, not, ◌&&◌, ◌||◌, ◌==◌, ltb, List, [], ◌∷◌, Option,
  none, some, char_at, after_word,
}
use signalk_esp_os_8relay.Base.Masks.{mask_of}
use signalk_esp_os_8relay.Board.{channels}
use signalk_esp_os_8relay.DeviceConfig.{Config}

-- `p[0] < '1' || p[0] > '0' + BOARD_CHANNELS` does not hold.
unfoldable pub is_channel_digit : ℕ → Bool
is_channel_digit c = not (ltb c b'1' || ltb 56 c)

-- `*end == '\0' || *end == '?'`
unfoldable pub ends : List ℕ → Bool
ends s = (char_at s 0 == 0) || (char_at s 0 == b'?')

-- What follows the prefix, from its '/' on, in web_ui_parse_channel().
unfoldable pub channel_of : Option (List ℕ) → ℕ
unfolding is_channel_digit ends
channel_of none = 0
channel_of (some []) = 0
channel_of (some (slash ∷ [])) = 0
channel_of (some (slash ∷ c ∷ rest)) =
    if (slash == b'/') && is_channel_digit c && ends rest then c - b'0' else 0

-- web_ui_parse_channel
unfoldable pub parse_channel : (uri prefix : List ℕ) → ℕ
unfolding channel_of
parse_channel uri prefix = channel_of (after_word prefix uri)

-- "/counters/reset"
abbrev pub reset_suffix : List ℕ
reset_suffix =
    b'/' ∷ b'c' ∷ b'o' ∷ b'u' ∷ b'n' ∷ b't' ∷ b'e' ∷ b'r' ∷ b's' ∷ b'/' ∷ b'r' ∷ b'e' ∷ b's' ∷ b'e'
    ∷ b't' ∷ []

-- What follows the channel in web_ui_parse_reset_channel().
unfoldable pub ends_after : Option (List ℕ) → Bool
unfolding ends
ends_after none = false
ends_after (some rest) = ends rest

unfoldable pub reset_channel_of : Option (List ℕ) → ℕ
unfolding is_channel_digit ends_after
reset_channel_of none = 0
reset_channel_of (some []) = 0
reset_channel_of (some (slash ∷ [])) = 0
reset_channel_of (some (slash ∷ c ∷ rest)) =
    if (slash == b'/') && is_channel_digit c && ends_after (after_word reset_suffix rest)
    then c - b'0'
    else 0

-- web_ui_parse_reset_channel
unfoldable pub parse_reset_channel : (uri prefix : List ℕ) → ℕ
unfolding reset_channel_of
parse_reset_channel uri prefix = reset_channel_of (after_word prefix uri)

-- web_ui_all_on_skipped
unfoldable pub all_on_skipped : Config → ℕ
all_on_skipped cfg = mask_of channels (λ i. not ((cfg.relays i).interlock == 0))
