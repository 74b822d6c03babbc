-- ===== src/Board.antt =====
-- components/board/include/board.h, the constants that the other parts read, and esp_err_t, the
-- status of ESP-IDF. The codes are those that the sources name; a driver or a store may return any
-- other.
use signalk_esp_os_8relay.Base.{ℕ, Bool, true}

-- BOARD_CHANNELS
abbrev pub channels : ℕ
channels = 8

-- BOARD_RELAY_ACTIVE_HIGH
abbrev pub relay_active_high : Bool
relay_active_high = true

-- BOARD_DI_ACTIVE_LOW
abbrev pub di_active_low : Bool
di_active_low = true

-- An `esp_err_t` other than ESP_OK.
pub data Fault : Type 0 where
  no_mem invalid_arg invalid_state invalid_response : Fault
  other : ℕ → Fault

-- `esp_err_t`
pub data Status : Type 0 where
  ok : Status
  fail : Fault → Status

-- What a read leaves in its out parameter, or its error.
pub data Reply (A : Type 0) : Type 0 where
  got : A → Reply A
  failed : Fault → Reply A
