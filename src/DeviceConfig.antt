-- ===== src/DeviceConfig.antt =====
-- components/device_config/include/device_config.h: the settings of the firmware. The strings are
-- byte lists. An array of BOARD_CHANNELS entries is a function of the index, 0 for channel 1. The
-- fallback position (floats) and the tones are left out: nothing modelled here reads them.
pub mod Interlock
pub mod Schedules
pub mod Usable
pub mod Conflicts
use signalk_esp_os_8relay.Base.{ℕ, Bool, List, ℤ}

-- relay_mode_t
pub data Mode : Type 0 where
  latching momentary : Mode

-- failsafe_policy_t
pub data Failsafe : Type 0 where
  default_safe hold : Failsafe

-- input_link_t
pub data Link : Type 0 where
  follow toggle : Link

-- input_alarm_t
pub data InputAlarm : Type 0 where
  off warn alarm emergency : InputAlarm

-- position_source_t
pub data PositionSource : Type 0 where
  signalk n2k : PositionSource

-- schedule_mode_t
pub data ScheduleMode : Type 0 where
  clock repeat : ScheduleMode

-- schedule_time_kind_t
pub data TimeKind : Type 0 where
  by_clock sunrise sunset : TimeKind

-- schedule_time_t
pub record ScheduleTime : Type 0 where
  pub kind : TimeKind
  pub minute_of_day : ℕ
  pub offset_min : ℤ

-- schedule_cfg_t
pub record ScheduleCfg : Type 0 where
  pub relay : ℕ
  pub mode : ScheduleMode
  pub on : ScheduleTime
  pub off : ScheduleTime
  pub on_min : ℕ
  pub period_min : ℕ
  pub days : ℕ

-- SCHEDULE_MAX_ENTRIES
abbrev pub max_entries : ℕ
max_entries = 8

-- relay_cfg_t
pub record RelayCfg : Type 0 where
  pub name : List ℕ
  pub mode : Mode
  pub pulse_ms : ℕ
  pub failsafe : Failsafe
  pub override_di : ℕ
  pub wired_nc : Bool
  pub link : Link
  pub max_on_s : ℕ
  pub interlock : ℕ

-- input_cfg_t
pub record InputCfg : Type 0 where
  pub name : List ℕ
  pub invert : Bool
  pub alarm : InputAlarm
  pub alarm_msg : List ℕ
  pub alarm_buzz : Bool

-- device_config_t
pub record Config : Type 0 where
  pub bank_id : ℕ
  pub input_bank_id : ℕ
  pub debounce_ms : ℕ
  pub sk_loss_grace_s : ℕ
  pub sk_republish_s : ℕ
  pub publish_switches_tree : Bool
  pub publish_controls_tree : Bool
  pub n2k_alerts : Bool
  pub position_source : PositionSource
  pub interlock_dead_ms : ℕ
  pub relays : ℕ → RelayCfg
  pub inputs : ℕ → InputCfg
  pub interlock_invalid : ℕ
  pub schedules : ℕ → ScheduleCfg
  pub schedule_relay_conflict : ℕ

-- device_config_effective_failsafe
unfoldable pub effective_failsafe : RelayCfg → Failsafe
effective_failsafe r = elim r.mode [ momentary ↦ default_safe | latching ↦ r.failsafe ]
