-- ===== src/N2kBridge/Start.antt =====
-- n2k_bridge_start(): what the node is set up with, and the state it starts from. What the flash
-- library, the chip and the NMEA 2000 library return are arguments.
use signalk_esp_os_8relay.Base.{
  ℕ, ◌*◌, ◌^◌, if◌then◌else◌, Bool, true, false, List, [], ◌∷◌, Option, none, some, bit_or, bit_and,
}
use signalk_esp_os_8relay.Board.{Status, ok, fail, no_mem}
use signalk_esp_os_8relay.DeviceConfig.{Config, PositionSource, signalk, n2k}
use signalk_esp_os_8relay.Alerts.State.{AlertsCfg, cfg_from, input_bank_usable}
use signalk_esp_os_8relay.Alerts.State as AlertsState
use signalk_esp_os_8relay.N2kBridge.State.{
  Bridge, pgn_status, pgn_control, pgn_alert, pgn_response, pgn_text,
}

-- kTransmitPgns
abbrev pub transmit_pgns : List ℕ
transmit_pgns = pgn_status ∷ pgn_alert ∷ pgn_text ∷ []

-- The PGNs of positions join the list when they are asked for.
unfoldable pub position_pgns : PositionSource → List ℕ
position_pgns n2k = 129025 ∷ 129029 ∷ []
position_pgns signalk = []

-- g_receive_pgns up to its first 0.
unfoldable pub receive_pgns : Config → List ℕ
unfolding position_pgns
receive_pgns cfg = pgn_control ∷ pgn_response ∷ position_pgns cfg.position_source

-- `unique`, from the bytes of the MAC address.
unfoldable pub unique_number : (ℕ → ℕ) → ℕ
unique_number mac = bit_or (bit_or (bit_and (mac 3) 0x1F * 2 ^ 16) (mac 4 * 2 ^ 8)) (mac 5)

-- The address that was stored, or kDefaultAddress.
unfoldable pub first_address : Option ℕ → ℕ
first_address none = 34
first_address (some address) = address

-- What the node is set up with.
pub record Node : Type 0 where
  pub unique : ℕ
  pub address : ℕ
  pub transmit : List ℕ
  pub receive : List ℕ

-- The results of the calls that n2k_bridge_start() makes.
pub record Platform : Type 0 where
  pub nvs_open : Status
  pub stored_address : Option ℕ
  pub mac : ℕ → ℕ
  pub mutex_made : Bool
  pub device_name : ℕ
  pub now_ms : ℕ
  pub task_made : Bool

-- The banks that a start takes over before anything can fail.
unfoldable pub take_banks : Config → Bridge → Bridge
unfolding input_bank_usable
take_banks cfg s = record s {
  relay_bank = cfg.bank_id;
  input_bank = cfg.input_bank_id;
  inputs_on = input_bank_usable cfg;
}

-- The rest of n2k_bridge_start(), with the lock made.
unfoldable pub start_locked : Platform → Config → Bridge → Bridge
unfolding cfg_from first_address
start_locked env cfg s = record s {
  locked = true;
  alerts = AlertsState.init (cfg_from cfg) s.input_bank env.device_name env.now_ms;
  address = first_address env.stored_address;
}

-- After nvs_open(), whose result comes last.
unfoldable pub start_opened : Platform → Config → Bridge → Status → Bridge × Status
start_opened env cfg s (fail e) = (s, fail e)
start_opened env cfg s ok =
    if env.mutex_made
    then (start_locked env cfg s, if env.task_made then ok else fail no_mem)
    else (record s { locked = false }, fail no_mem)

-- n2k_bridge_start
unfoldable pub start : Platform → Config → Bridge → Bridge × Status
start env cfg s = start_opened env cfg (take_banks cfg s) env.nvs_open

-- The node of a start that opened the flash.
unfoldable pub node_of : Platform → Config → Node
unfolding unique_number first_address receive_pgns
node_of env cfg = record {
  unique = unique_number env.mac;
  address = first_address env.stored_address;
  transmit = transmit_pgns;
  receive = receive_pgns cfg;
}
