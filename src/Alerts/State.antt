-- ===== src/Alerts/State.antt =====
-- n2k_alerts_t, its settings, and the messages about one channel.
use signalk_esp_os_8relay.Base.{
  ℕ, ◌-◌, if◌then◌else◌, Bool, true, false, not, ◌&&◌, ◌==◌, ltb, List, [], ◌∷◌, same_text, ◌++◌,
}
use signalk_esp_os_8relay.Board.{channels}
use signalk_esp_os_8relay.DeviceConfig.{Config, InputCfg, InputAlarm}
use signalk_esp_os_8relay.N2kAlert.{AlertId, Alert, first}

abbrev pub status_period_ms : ℕ
status_period_ms = 1000

abbrev pub text_period_ms : ℕ
text_period_ms = 10000

abbrev pub clear_repeats : ℕ
clear_repeats = 3

-- N2K_ALERT_NAME_NONE
abbrev pub name_none : ℕ
name_none = 18446744073709551615

-- n2k_alerts_cfg_t
pub record AlertsCfg : Type 0 where
  pub enabled : Bool
  pub inputs_on : Bool
  pub level : ℕ → InputAlarm
  pub message : ℕ → List ℕ

-- n2k_alerts_chan_t
pub record Chan : Type 0 where
  pub active : Bool
  pub level : InputAlarm
  pub occurrence : ℕ
  pub acked : Bool
  pub ack_name : ℕ
  pub text_due : Bool
  pub status_due : Bool
  pub clear_left : ℕ
  pub clear_level : InputAlarm
  pub clear_occurrence : ℕ

-- n2k_alerts_t
pub record Alerts : Type 0 where
  pub cfg : AlertsCfg
  pub bank : ℕ
  pub source_name : ℕ
  pub status_at : ℕ
  pub text_at : ℕ
  pub chan : ℕ → Chan

-- A payload for `send_status` or `send_text`.
pub data Sent : Type 0 where
  status text : List ℕ → Sent

-- The message of an input in its buffer of DEVICE_CONFIG_NAME_MAX + 8 bytes.
unfoldable pub message_of : InputCfg → List ℕ
message_of input = elim input.alarm_msg [
  | [] ↦ first 39 (input.name ++ (b' ' ∷ b'a' ∷ b'c' ∷ b't' ∷ b'i' ∷ b'v' ∷ b'e' ∷ []))
  | c ∷ rest ↦ first 39 (c ∷ rest)
]

-- device_config_input_bank_usable
unfoldable pub input_bank_usable : Config → Bool
input_bank_usable cfg = not (cfg.input_bank_id == cfg.bank_id)

-- n2k_alerts_cfg_from
unfoldable pub cfg_from : Config → AlertsCfg
unfolding message_of input_bank_usable
cfg_from cfg = record {
  enabled = cfg.n2k_alerts;
  inputs_on = input_bank_usable cfg;
  level = λ i. (cfg.inputs i).alarm;
  message = λ i. message_of (cfg.inputs i);
}

-- n2k_alerts_type_of
unfoldable pub type_of : InputAlarm → ℕ
type_of InputAlarm.emergency = 1
type_of InputAlarm.alarm = 2
type_of InputAlarm.warn = 5
type_of InputAlarm.off = 5

-- `c->level == level`
unfoldable pub same_level : InputAlarm → InputAlarm → Bool
same_level InputAlarm.off InputAlarm.off = true
same_level InputAlarm.warn InputAlarm.warn = true
same_level InputAlarm.alarm InputAlarm.alarm = true
same_level InputAlarm.emergency InputAlarm.emergency = true
same_level a b = false

-- id_of
unfoldable pub id_of : Alerts → ℕ → InputAlarm → ℕ → AlertId
id_of a ch level occurrence = record {
  alert_type = type_of level;
  category = 1;
  system = 0;
  subsystem = 0;
  id = ch;
  source_name = a.source_name;
  source_instance = a.bank;
  index = ch;
  occurrence = occurrence;
}

-- n2k_alerts_status_of
unfoldable pub status_of : Alerts → ℕ → Bool → Alert
unfolding id_of
status_of a ch clearing =
    let c = a.chan (ch - 1) in
    if clearing
    then record {
      id = id_of a ch c.clear_level c.clear_occurrence;
      silenced = false;
      acknowledged = false;
      escalated = false;
      silence_supported = false;
      ack_supported = true;
      escalation_supported = false;
      ack_name = name_none;
      trigger = 1;
      threshold = 0;
      priority = 0;
      state = 1;
    }
    else record {
      id = id_of a ch c.level c.occurrence;
      silenced = false;
      acknowledged = c.acked;
      escalated = false;
      silence_supported = false;
      ack_supported = true;
      escalation_supported = false;
      ack_name = if c.acked then c.ack_name else name_none;
      trigger = 1;
      threshold = 1;
      priority = 0;
      state = if c.acked then 4 else 2;
    }

abbrev pub empty_chan : Chan
empty_chan = record {
  active = false;
  level = InputAlarm.off;
  occurrence = 0;
  acked = false;
  ack_name = 0;
  text_due = false;
  status_due = false;
  clear_left = 0;
  clear_level = InputAlarm.off;
  clear_occurrence = 0;
}

-- n2k_alerts_init
unfoldable pub init : AlertsCfg → ℕ → ℕ → ℕ → Alerts
init cfg bank source_name now = record {
  cfg = cfg;
  bank = bank;
  source_name = source_name;
  status_at = now;
  text_at = now;
  chan = λ i. empty_chan;
}

-- n2k_alerts_set_config
unfoldable pub set_config : AlertsCfg → Alerts → Alerts
unfolding same_text
set_config cfg a = record a {
  cfg = cfg;
  chan = λ i.
      let c = a.chan i in
      if ltb i channels && (c.active && not (same_text (a.cfg.message i) (cfg.message i)))
      then record c { text_due = true }
      else c;
}

-- A channel replaced.
unfoldable pub put : ℕ → Chan → (ℕ → Chan) → ℕ → Chan
put i c chan j = if i == j then c else chan j
