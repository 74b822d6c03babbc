-- ===== src/N2kBridge/State.antt =====
-- The state of n2k_bridge.cpp, its task and its public functions.
use signalk_esp_os_8relay.Base.{
  ℕ, zero, suc, ◌*◌, ◌/◌, if◌then◌else◌, Bool, true, false, not, ◌&&◌, ◌||◌, ◌==◌, ltb, leb, List,
  [], ◌∷◌, ◌++◌, map, length, get_or, Option, none, some,
}
use signalk_esp_os_8relay.Base.Bits.{test}
use signalk_esp_os_8relay.Base.Words.{u32, sub32}
use signalk_esp_os_8relay.Board.{channels, Status, ok, fail, no_mem}
use signalk_esp_os_8relay.DeviceConfig.{Config}
use signalk_esp_os_8relay.SwitchBank.Pgn.{payload_len, encode_status, Command, decode_control}
use signalk_esp_os_8relay.Alerts.State.{Alerts, AlertsCfg, Sent, status, text, cfg_from, set_config}
use signalk_esp_os_8relay.Alerts.Tick
use signalk_esp_os_8relay.Alerts.Response.{on_response}

-- SWITCH_BANK_PGN_STATUS and SWITCH_BANK_PGN_CONTROL
abbrev pub pgn_status : ℕ
pgn_status = 127501

abbrev pub pgn_control : ℕ
pgn_control = 127502

-- N2K_ALERT_PGN, N2K_ALERT_PGN_RESPONSE and N2K_ALERT_PGN_TEXT
abbrev pub pgn_alert : ℕ
pgn_alert = 126983

abbrev pub pgn_response : ℕ
pgn_response = 126984

abbrev pub pgn_text : ℕ
pgn_text = 126985

-- N2K_BRIDGE_MAX_MSG_LISTENERS
abbrev pub max_msg_listeners : ℕ
max_msg_listeners = 4

-- A message, received or sent.
pub record Message : Type 0 where
  pub pgn : ℕ
  pub priority : ℕ
  pub payload : List ℕ

-- What n2k_bridge_io_t returns. Those that one round of the task reads more than once take the number
-- of the place.
pub record Io : Type 0 where
  pub relay_mask : ℕ
  pub inputs_ready : ℕ → Bool
  pub input_mask : ℕ → ℕ

-- State and the status for the relay page. `locked` says that `cfg_lock` is there; `listeners` are
-- the slots in use.
pub record Bridge : Type 0 where
  pub locked : Bool
  pub relay_bank : ℕ
  pub input_bank : ℕ
  pub inputs_on : Bool
  pub changed : Bool
  pub alerts : Alerts
  pub pending_cfg : AlertsCfg
  pub cfg_changed : Bool
  pub listeners : List ℕ
  pub last_rx_tick : ℕ
  pub rx_seen : Bool
  pub started : Bool
  pub address : ℕ

-- The variables of n2k_task().
pub record Task : Type 0 where
  pub last_status : ℕ
  pub began : ℕ
  pub reported : Bool

-- The first `n` bytes of a payload.
unfoldable pub bytes_of : (ℕ → ℕ) → ℕ → List ℕ
bytes_of out zero = []
bytes_of out (suc n) = bytes_of out n ++ out n ∷ []

-- send_status, with kPriority.
unfoldable pub send_status : ℕ → ℕ → Message
send_status bank_instance mask = record {
  pgn = pgn_status;
  priority = 3;
  payload = bytes_of (encode_status bank_instance mask channels) payload_len;
}

-- The message about the relays, and the one about the inputs if they are sent.
unfoldable pub relay_status : Bridge → ℕ → Message
relay_status s mask = send_status s.relay_bank mask

unfoldable pub input_status : Bridge → Bool → ℕ → List Message
input_status s ready mask = if s.inputs_on && ready then send_status s.input_bank mask ∷ [] else []

-- send_all
unfoldable pub send_all : Bridge → Io → List Message
send_all s io = relay_status s io.relay_mask ∷ input_status s (io.inputs_ready 0) (io.input_mask 0)

-- send_alert_status and send_alert_text, with kAlertPriority.
unfoldable pub send_alert : Sent → Message
send_alert (status payload) = record { pgn = pgn_alert; priority = 2; payload = payload }
send_alert (text payload) = record { pgn = pgn_text; priority = 2; payload = payload }

-- The loop over the channels of a command: the calls of set_relay(), in order.
unfoldable pub orders : Command → ℕ → List (ℕ × Bool)
orders cmd zero = []
orders cmd (suc i) =
    orders cmd i
    ++ ((if test cmd.on i then (suc i, true) ∷ [] else [])
        ++ (if test cmd.off i then (suc i, false) ∷ [] else []))

unfoldable pub orders_of : Option Command → List (ℕ × Bool)
unfolding orders
orders_of none = []
orders_of (some cmd) = orders cmd channels

-- on_message: the listeners that are called and the orders to the relays.
unfoldable pub on_message : Message → Bridge → Bridge × List ℕ × List (ℕ × Bool)
unfolding orders_of
on_message msg s =
    if msg.pgn == pgn_response
    then (record s { alerts = (on_response s.alerts msg.payload).0 }, s.listeners, [])
    else if not (msg.pgn == pgn_control)
    then (s, s.listeners, [])
    else (
      s,
      s.listeners,
      orders_of
          (decode_control (λ j. get_or msg.payload j 0) (length msg.payload) s.relay_bank channels),
    )

-- A frame from the bus, as CANGetFrame() notes it.
unfoldable pub frame_received : ℕ → Bridge → Bridge
frame_received now s = record s { last_rx_tick = now; rx_seen = true }

-- pdMS_TO_TICKS, at `hz` ticks per second.
abbrev pub ticks : ℕ → ℕ → ℕ
ticks hz ms = u32 (ms * hz / 1000)

-- The report of the task that the bus is open, or does not open.
unfoldable pub report_open : ℕ → Bool → ℕ → Task → Bridge → Task × Bridge
report_open hz is_open now task s =
    if not task.reported && is_open
    then (record task { reported = true }, record s { started = true })
    else if not task.reported && ltb (ticks hz 5000) (sub32 now task.began)
    then (record task { reported = true }, s)
    else (task, s)

-- Whether this round sends the states; `changed` is as exchange() found it.
unfoldable pub status_due : ℕ → ℕ → Bool → Task → Bool
status_due hz now changed task = changed || leb (ticks hz 2000) (sub32 now task.last_status)

-- `changed.exchange(false)`
unfoldable pub take_changed : Bridge → Bridge
take_changed s = record s { changed = false }

-- `cfg_changed.exchange(false)`, and what follows it if it was set.
unfoldable pub take_cfg_changed : Bridge → Bridge
take_cfg_changed s = record s { cfg_changed = false }

unfoldable pub apply_cfg : Bridge → Bridge
apply_cfg s = record s { alerts = set_config s.pending_cfg s.alerts }

-- now_ms(): the ticks in milliseconds.
abbrev pub now_ms : ℕ → ℕ → ℕ
now_ms hz now = u32 (now * (1000 / hz))

-- A round of n2k_task() with the bus open, after ParseMessages(). `source` is the address that the
-- library has, `moved` whether it has changed; the address to store comes last.
unfoldable pub round_open :
    ℕ → ℕ → ℕ → Bool → Io → Task → Bridge → Task × Bridge × List Message × Option ℕ
round_open hz now source moved io task s =
    let due = status_due hz now s.changed task in
    let s1 = take_changed (record s { address = source }) in
    let s2 = if s1.cfg_changed then apply_cfg (take_cfg_changed s1) else s1 in
    let (alerts, sent) =
      Tick.tick (io.inputs_ready 1) (io.input_mask 1) (now_ms hz now) s2.alerts in
    (
      (if due then record task { last_status = now } else task),
      record s2 { alerts = alerts },
      (if due then send_all s1 io else []) ++ map send_alert sent,
      (if moved then some source else none),
    )

-- A round of n2k_task() after ParseMessages().
unfoldable pub round :
    ℕ → Bool → ℕ → ℕ → Bool → Io → Task → Bridge → Task × Bridge × List Message × Option ℕ
unfolding report_open round_open
round hz is_open now source moved io task s =
    let (task1, s1) = report_open hz is_open now task s in
    if not is_open then (task1, s1, [], none) else round_open hz now source moved io task1 s1

-- n2k_bridge_state_changed
unfoldable pub state_changed : Bridge → Bridge
state_changed s = record s { changed = true }

-- The settings of the alerts, with the running use of the input bank.
unfoldable pub running_cfg : Config → Bridge → AlertsCfg
unfolding cfg_from
running_cfg cfg s = record (cfg_from cfg) { inputs_on = s.inputs_on }

-- The two writes of n2k_bridge_update_config().
unfoldable pub store_cfg : AlertsCfg → Bridge → Bridge
store_cfg c s = record s { pending_cfg = c }

unfoldable pub flag_cfg : Bridge → Bridge
flag_cfg s = record s { cfg_changed = true }

-- n2k_bridge_update_config
unfoldable pub update_config : Config → Bridge → Bridge
unfolding running_cfg store_cfg flag_cfg
update_config cfg s = if not s.locked then s else flag_cfg (store_cfg (running_cfg cfg s) s)

-- n2k_bridge_status_t
pub record BusStatus : Type 0 where
  pub started : Bool
  pub address : ℕ
  pub traffic : Bool

-- n2k_bridge_get_status
unfoldable pub get_status : ℕ → ℕ → Bridge → BusStatus
get_status hz now s = record {
  started = s.started;
  address = s.address;
  traffic = s.rx_seen && ltb (sub32 now s.last_rx_tick) (ticks hz 10000);
}

-- n2k_bridge_add_msg_listener: the first free slot. None is ever freed.
unfoldable pub add_msg_listener : ℕ → Bridge → Bridge × Status
add_msg_listener cb s =
    if ltb (length s.listeners) max_msg_listeners
    then (record s { listeners = s.listeners ++ cb ∷ [] }, ok)
    else (s, fail no_mem)
