-- ===== src/N2kBridge/Control.antt =====
-- What a message from the bus does to the relays.
use signalk_esp_os_8relay.Base.{
  ℕ, zero, suc, ◌+◌, ◌-◌, ◌<◌, ◌≡◌, refl, ◌∙◌, arith, Bool-cases, inl, inr, if◌then◌else◌, Bool,
  true, false, ◌&&◌, ◌==◌, ltb, leb, List, [], ◌∷◌, ◌++◌, length, get_or, length-append, ltb→lt,
  same_at, ◌⊎◌, ◌*◌, ◌/◌, ◌%◌, ◌^◌, bit_and, none, some,
}
use signalk_esp_os_8relay.Base.Bits.{test}
use signalk_esp_os_8relay.Base.Masks.{test-mask_of}
use signalk_esp_os_8relay.Board.{channels}
use signalk_esp_os_8relay.SwitchBank.Pgn.{
  payload_len, fields, field, Command, decode_control, encode_status,
}
use signalk_esp_os_8relay.SwitchBank.Payload.{asked, decode_control-asked, encode_status-field}
use signalk_esp_os_8relay.N2kBridge.State.{
  pgn_control, Message, Bridge, orders, orders_of, on_message, bytes_of, send_status, relay_status,
}

-- The orders that a control payload stands for, read field by field: 1 is on, 0 is off.
unfoldable pub wanted : (ℕ → ℕ) → ℕ → List (ℕ × Bool)
wanted payload zero = []
wanted payload (suc i) =
    wanted payload i
    ++ (if field payload i == 1
        then (suc i, true) ∷ []
        else if field payload i == 0
        then (suc i, false) ∷ []
        else [])

-- The bytes of a message.
abbrev pub byte_at : List ℕ → ℕ → ℕ
byte_at s j = get_or s j 0

orders-wanted :
    (payload : ℕ → ℕ) (n : ℕ)
    → n < 9
    → orders
        (record { on = asked payload channels 1 fields; off = asked payload channels 0 fields })
        n
      ≡ wanted payload n
unfolding orders wanted
orders-wanted payload zero h = refl
orders-wanted payload (suc i) h = ground (
  arith,
  orders-wanted payload i (omega arith),
  test-mask_of fields (λ j. ltb j channels && (field payload j == 1)) i,
  test-mask_of fields (λ j. ltb j channels && (field payload j == 0)) i,
)

decoded_orders :
    (payload : ℕ → ℕ) (len bank : ℕ)
    → orders_of (decode_control payload len bank channels)
      ≡ (if leb payload_len len && (payload 0 == bank) then wanted payload channels else [])
unfolding orders_of
decoded_orders payload len bank =
    rw (decode_control-asked payload len bank channels)
      (chosen (leb payload_len len && (payload 0 == bank)))
  where
    cmd : Command
    cmd = record { on = asked payload channels 1 fields; off = asked payload channels 0 fields }

    chosen :
        (b : Bool)
        → orders_of (if b then some cmd else none) ≡ (if b then wanted payload channels else [])
    chosen true = orders-wanted payload 8 (omega arith)
    chosen false = refl

-- A message switches relays only if it is a switch bank control with at least eight bytes for the
-- bank of the relays; then the orders, from channel 1 to 8, are on for each field that is 1, off
-- for each that is 0, and none for any other.
pub on_message-orders :
    (msg : Message) (s : Bridge)
    → (on_message msg s).2 ≡ (
        if msg.pgn == pgn_control
          && (leb payload_len (length msg.payload) && (byte_at msg.payload 0 == s.relay_bank))
        then wanted (byte_at msg.payload) channels
        else [])
unfolding on_message
on_message-orders msg s =
    let decoded = decoded_orders (byte_at msg.payload) (length msg.payload) s.relay_bank in
    ground (arith, decoded)

-- An order for each of the first `n` relays: the state that it has in a mask.
unfoldable pub restate : ℕ → ℕ → List (ℕ × Bool)
restate mask zero = []
restate mask (suc i) = restate mask i ++ (suc i, test mask i) ∷ []

bytes_of-length : (out : ℕ → ℕ) (n : ℕ) → length (bytes_of out n) ≡ n
unfolding bytes_of
bytes_of-length out zero = refl
bytes_of-length out (suc n) =
    omega (arith, length-append {0} (bytes_of out n) (out n ∷ []), bytes_of-length out n)

get_or-append :
    (xs ys : List ℕ) (j : ℕ)
    → get_or (xs ++ ys) j 0
      ≡ (if ltb j (length xs) then get_or xs j 0 else get_or ys (j - length xs) 0)
get_or-append [] ys j = ground arith
get_or-append (x ∷ xs) ys zero = ground arith
get_or-append (x ∷ xs) ys (suc j) = ground (arith, get_or-append xs ys j)

byte_at-bytes_of : (out : ℕ → ℕ) (n j : ℕ) → j < n → byte_at (bytes_of out n) j ≡ out j
unfolding bytes_of
byte_at-bytes_of out zero j h = absurd (omega arith)
byte_at-bytes_of out (suc n) j h =
    get_or-append (bytes_of out n) (out n ∷ []) j
    ∙ rw (bytes_of-length out n) (chosen (Bool-cases (ltb j n)) (λ l. byte_at-bytes_of out n j l))
  where
    chosen :
        ((ltb j n ≡ true) ⊎ (ltb j n ≡ false))
        → (j < n → byte_at (bytes_of out n) j ≡ out j)
        → (if ltb j n then get_or (bytes_of out n) j 0 else get_or (out n ∷ []) (j - n) 0) ≡ out j
    chosen (inl e) old = rw e (old (ltb→lt j n e))
    chosen (inr e) old =
        let last : n ≡ j = ground (arith, e, h) in
        let none_left : j - n ≡ 0 = omega (arith, last) in
        rw e (rw none_left (same_at out n j last))

-- The fields of the relays stand in the first bytes.
wanted-restate :
    (payload : ℕ → ℕ) (bank mask n : ℕ)
    → n < 9
    → ((j : ℕ) → j < 8 → payload j ≡ encode_status bank mask channels j)
    → wanted payload n ≡ restate mask n
unfolding wanted restate field
wanted-restate payload bank mask zero h same = refl
wanted-restate payload bank mask (suc i) h same =
    let sent = (encode_status-field bank mask channels i (omega arith)).1 in
    let value : field payload i ≡ field (encode_status bank mask channels) i =
      field-byte i (omega arith) in
    ground (arith, wanted-restate payload bank mask i (omega arith) same, sent, value)
  where
    field-byte : (k : ℕ) → k < 8 → field payload k ≡ field (encode_status bank mask channels) k
    field-byte k small = λ e. bit_and (same (1 + k / 4) (omega arith) e / 2 ^ (2 * (k % 4))) 3

-- The status that a board broadcasts of its relays, sent to a board with the same bank as a control
-- message, orders each of the eight relays there, in their order, to the state it has here.
pub on_message-relay_status :
    (s t : Bridge) (mask : ℕ)
    → s.relay_bank ≡ t.relay_bank
    → (on_message (record (relay_status s mask) { pgn = pgn_control }) t).2 ≡ restate mask channels
unfolding relay_status send_status
on_message-relay_status s t mask same =
    let payload = encode_status s.relay_bank mask channels in
    let sent = bytes_of payload 8 in
    let byte = byte_at-bytes_of payload 8 in
    let long : leb payload_len (length sent) ≡ true = rw (bytes_of-length payload 8) refl in
    let first : byte_at sent 0 ≡ t.relay_bank =
      byte 0 (omega arith)
      ∙ ((encode_status-field s.relay_bank mask channels 0 (omega arith)).0 ∙ same) in
    let ours : (byte_at sent 0 == t.relay_bank) ≡ true = ground (arith, first) in
    on_message-orders (record { pgn = pgn_control; priority = 3; payload = sent }) t
    ∙ rw long (rw ours (wanted-restate (byte_at sent) s.relay_bank mask 8 (omega arith) byte))
