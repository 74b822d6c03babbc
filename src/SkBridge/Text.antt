-- ===== src/SkBridge/Text.antt =====
-- The texts that sk_bridge.c writes: paths, escaped names, and the JSON objects. A text is the list
-- of its bytes without the final zero; a buffer of `size` bytes holds `size - 1` of them.
use signalk_esp_os_8relay.Base.{
  ℕ, zero, suc, ◌+◌, ◌-◌, ◌/◌, ◌%◌, if◌then◌else◌, Bool, true, ◌||◌, ◌==◌, ltb, List, [], ◌∷◌, ◌++◌,
  length, codes,
}
use signalk_esp_os_8relay.N2kAlert.{first}
use signalk_esp_os_8relay.DeviceConfig.{Config, InputCfg, InputAlarm}

-- tree_t
pub data Tree : Type 0 where
  switches controls : Tree

-- The leaves that the bridge publishes under a channel.
pub data Leaf : Type 0 where
  state name run_time cycles order kind manufacturer_name manufacturer_model : Leaf

unfoldable pub leaf_text : Leaf → List ℕ
leaf_text state = codes "state"
leaf_text name = codes "name"
leaf_text run_time = codes "runTime"
leaf_text cycles = codes "cycles"
leaf_text order = codes "order"
leaf_text kind = codes "type"
leaf_text manufacturer_name = codes "manufacturer.name"
leaf_text manufacturer_model = codes "manufacturer.model"

-- `%u`: the decimal digits, as many as there is fuel for.
unfoldable pub digits : ℕ → ℕ → List ℕ
digits zero n = []
digits (suc fuel) n =
    let high = digits fuel (n / 10) in
    if ltb n 10 then (48 + n) ∷ [] else high ++ (48 + n % 10) ∷ []

-- An `unsigned` has ten digits at most.
unfoldable pub decimal : ℕ → List ℕ
unfolding digits
decimal n = digits 10 n

unfoldable pub bank_of : Config → Bool → ℕ
bank_of cfg input = if input then cfg.input_bank_id else cfg.bank_id

abbrev pub dot : ℕ
dot = b'.'

-- What the format of make_path() makes.
unfoldable pub path_text : Tree → ℕ → Bool → ℕ → List ℕ → List ℕ
path_text switches bank input ch leaf =
    codes "electrical.switches.bank." ++ (decimal bank ++ (dot ∷ (decimal ch ++ (dot ∷ leaf))))
path_text controls bank input ch leaf =
    codes "electrical.controls.espOS-instance"
    ++ (decimal bank
        ++ (b'-'
            ∷ ((if input then codes "input" else codes "relay") ++ (decimal ch ++ (dot ∷ leaf)))))

-- make_path, into PATH_MAX_LEN bytes.
unfoldable pub make_path : Config → Tree → Bool → ℕ → Leaf → List ℕ
make_path cfg t input ch leaf = first 95 (path_text t (bank_of cfg input) input ch (leaf_text leaf))

-- make_notif_path, into NOTIF_PATH_MAX_LEN bytes.
unfoldable pub make_notif_path : Config → Tree → ℕ → Leaf → List ℕ
make_notif_path cfg t ch leaf = first 111 (codes "notifications." ++ make_path cfg t true ch leaf)

-- alarm_state_str
unfoldable pub alarm_state_str : InputAlarm → List ℕ
alarm_state_str InputAlarm.warn = codes "warn"
alarm_state_str InputAlarm.alarm = codes "alarm"
alarm_state_str InputAlarm.emergency = codes "emergency"
alarm_state_str InputAlarm.off = codes "normal"

-- A digit of `%04x`.
unfoldable pub hex_digit : ℕ → ℕ
hex_digit d = if ltb d 10 then b'0' + d else b'a' + (d - 10)

-- What one round of json_escape() appends. `%04x` of a byte starts with two zeros.
unfoldable pub escape_char : ℕ → List ℕ
escape_char c =
    if c == b'"' || c == b'\\'
    then b'\\' ∷ c ∷ []
    else if ltb c 0x20
    then b'\\' ∷ b'u' ∷ b'0' ∷ b'0' ∷ hex_digit (c / 16) ∷ hex_digit (c % 16) ∷ []
    else c ∷ []

-- The loop of json_escape() from `n` bytes on.
unfoldable pub escape_loop : ℕ → ℕ → List ℕ → List ℕ
unfolding escape_char
escape_loop size n [] = []
escape_loop size n (c ∷ s) =
    let piece = escape_char c in
    let rest = escape_loop size (n + length piece) s in
    if ltb (n + 7) size then piece ++ rest else []

-- json_escape, into `size` bytes.
unfoldable pub json_escape : ℕ → List ℕ → List ℕ
unfolding escape_loop
json_escape size s = escape_loop size 0 s

-- The message of an alarm before it is escaped, in its buffer of DEVICE_CONFIG_NAME_MAX + 16 bytes.
unfoldable pub raw_message : InputCfg → List ℕ
unfolding first
raw_message input = elim input.alarm_msg [
  | [] ↦ first 47 (input.name ++ codes " active")
  | c ∷ rest ↦ first 47 (c ∷ rest)
]

-- The object of a raised alarm, as its format makes it.
unfoldable pub raised_text : List ℕ → List ℕ → List ℕ
raised_text severity msg =
    codes "{\"state\":\""
    ++ (severity
        ++ (codes "\",\"method\":[\"visual\",\"sound\"],\"message\":\"" ++ (msg ++ codes "\"}")))

-- `json` of publish_notification(), in its buffer of 2 * DEVICE_CONFIG_NAME_MAX + 96 bytes.
unfoldable pub notification_json : InputCfg → Bool → List ℕ
notification_json input active =
    if active
    then first 159 (raised_text (alarm_state_str input.alarm) (json_escape 80 (raw_message input)))
    else first 159 (codes "{\"state\":\"normal\",\"method\":[],\"message\":\"\"}")

-- `meta` of declare_names(), as its format makes it.
unfoldable pub meta_text : List ℕ → List ℕ
meta_text shown =
    codes "{\"displayName\":\""
    ++ (shown
        ++ codes
            "\",\"manufacturer\":{\"name\":\"Waveshare\",\"model\":\"ESP32-S3-ETH-8DI-8RO-C\"}}")

-- `meta` of declare_names(), in its buffer of 160 bytes.
unfoldable pub meta_json : List ℕ → List ℕ
meta_json channel_name = first 159 (meta_text (json_escape 72 channel_name))
