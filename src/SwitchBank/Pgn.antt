-- ===== src/SwitchBank/Pgn.antt =====
-- switch_bank_pgn.c: an instance byte followed by 28 fields of two bits, the lowest first. A payload
-- is a function from the index of a byte.
use signalk_esp_os_8relay.Base.{
  ℕ, zero, suc, ◌+◌, ◌*◌, ◌/◌, ◌%◌, ◌^◌, if◌then◌else◌, not, ◌||◌, ◌==◌, ltb, leb, bit_or, bit_and,
  Option, none, some,
}
use signalk_esp_os_8relay.Base.Bits.{bit}
use signalk_esp_os_8relay.Base.Words.{u8}

abbrev pub payload_len : ℕ
payload_len = 8

-- FIELDS
abbrev pub fields : ℕ
fields = 28

-- `i >= channels ? 3 : (mask >> i) & 1`
unfoldable pub status_of : ℕ → ℕ → ℕ → ℕ
status_of mask channels i = if leb channels i then 3 else bit_and (mask / 2 ^ i) 1

-- `out[at] |= v`, a byte.
unfoldable pub or_at : (ℕ → ℕ) → ℕ → ℕ → ℕ → ℕ
or_at out at v j = if at == j then u8 (bit_or (out j) v) else out j

unfoldable pub encode_loop : ℕ → ℕ → (ℕ → ℕ) → ℕ → ℕ → ℕ
encode_loop mask channels out zero = out
encode_loop mask channels out (suc i) =
    or_at (encode_loop mask channels out i) (1 + i / 4)
      (u8 (status_of mask channels i * 2 ^ (2 * (i % 4))))

-- The payload before the loop: memset() and the instance.
unfoldable pub cleared : ℕ → ℕ → ℕ
cleared bank_instance j = if 0 == j then bank_instance else 0

-- switch_bank_encode_status
unfoldable pub encode_status : ℕ → ℕ → ℕ → ℕ → ℕ
unfolding cleared
encode_status bank_instance mask channels = encode_loop mask channels (cleared bank_instance) fields

-- switch_bank_command_t
pub record Command : Type 0 where
  pub on : ℕ
  pub off : ℕ

-- `(data[1 + i / 4] >> (2 * (i % 4))) & 3`
unfoldable pub field : (ℕ → ℕ) → ℕ → ℕ
field payload i = bit_and (payload (1 + i / 4) / 2 ^ (2 * (i % 4))) 3

unfoldable pub decode_loop : (ℕ → ℕ) → ℕ → ℕ → Command
decode_loop payload channels zero = record { on = 0; off = 0 }
decode_loop payload channels (suc i) =
    let cmd = decode_loop payload channels i in
    if not (ltb i channels)
    then cmd
    else let v = field payload i in
      if v == 1
      then record cmd { on = bit_or cmd.on (bit i) }
      else if v == 0
      then record cmd { off = bit_or cmd.off (bit i) }
      else cmd

-- switch_bank_decode_control: `none` for the return of false.
unfoldable pub decode_control : (ℕ → ℕ) → ℕ → ℕ → ℕ → Option Command
decode_control payload len bank_instance channels =
    if ltb len payload_len || not (payload 0 == bank_instance)
    then none
    else some (decode_loop payload channels fields)
