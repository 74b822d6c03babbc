-- ===== src/SkBridge/Publish.antt =====
-- The publishing half of sk_bridge.c: what each function hands to the SignalK client, in order.
use signalk_esp_os_8relay.Base.{
  ℕ, zero, suc, ◌-◌, ◌*◌, if◌then◌else◌, Bool, true, false, ◌&&◌, List, [], ◌∷◌, ◌++◌, Option, none,
  some, codes,
}
use signalk_esp_os_8relay.Base.Bits.{test}
use signalk_esp_os_8relay.Base.Words.{u32}
use signalk_esp_os_8relay.Board.{channels}
use signalk_esp_os_8relay.DeviceConfig.{Config, InputAlarm}
use signalk_esp_os_8relay.Alerts.State.{input_bank_usable}
use signalk_esp_os_8relay.SkBridge.Text.{
  Tree, Leaf, switches, controls, state, name, run_time, cycles, order, kind, manufacturer_name,
  manufacturer_model, notification_json, meta_json,
}

-- The paths of the bridge: of a channel of the relay bank or the input bank, and of the alarm of an
-- input. `make_path` and `make_notif_path` write them out under the settings in use.
pub data SkPath : Type 0 where
  channel : Tree → Bool → ℕ → Leaf → SkPath
  alarm : Tree → ℕ → SkPath

-- A call of the client, sk_api_t. The argument of put_register is the channel.
pub data Call : Type 0 where
  publish_number : SkPath → ℕ → Call
  publish_string : SkPath → List ℕ → Call
  declare_meta : SkPath → List ℕ → ℕ → Call
  put_register : SkPath → ℕ → Call
  publish_json : SkPath → List ℕ → Call

-- What the functions of sk_bridge_io_t return during one call of the bridge. Those that a call reads
-- more than once take the number of the place that reads them; a counter is read once for each tree.
-- `none` is a null pointer.
pub record Io : Type 0 where
  pub relay_mask : ℕ
  pub inputs_ready : ℕ → Bool
  pub input_mask : ℕ → ℕ
  pub now_ms : ℕ → ℕ
  pub relay_counters : Option (Tree → ℕ → ℕ × ℕ)
  pub input_counters : Option (Tree → ℕ → ℕ × ℕ)

-- tree_on
unfoldable pub tree_on : Config → Tree → Bool
tree_on cfg switches = cfg.publish_switches_tree
tree_on cfg controls = cfg.publish_controls_tree

-- inputs_on
unfoldable pub inputs_on : Config → Bool
unfolding input_bank_usable
inputs_on cfg = input_bank_usable cfg

-- name_of
unfoldable pub name_of : Config → Bool → ℕ → List ℕ
name_of cfg input ch = if input then (cfg.inputs (ch - 1)).name else (cfg.relays (ch - 1)).name

-- `alarm != INPUT_ALARM_OFF`
unfoldable pub is_set : InputAlarm → Bool
is_set InputAlarm.off = false
is_set InputAlarm.warn = true
is_set InputAlarm.alarm = true
is_set InputAlarm.emergency = true

-- alarm_configured
unfoldable pub alarm_configured : Config → ℕ → Bool
unfolding is_set
alarm_configured cfg ch = inputs_on cfg && is_set (cfg.inputs (ch - 1)).alarm

-- publish_state
unfoldable pub publish_state : Tree → Bool → ℕ → Bool → List Call
publish_state t input ch on = publish_number (channel t input ch state) (if on then 1 else 0) ∷ []

-- publish_notification
unfoldable pub publish_notification : Config → Tree → ℕ → Bool → List Call
publish_notification cfg t ch active =
    publish_json (alarm t ch) (notification_json (cfg.inputs (ch - 1)) active) ∷ []

-- The period of the metadata, and of the republishing.
unfoldable pub republish_ms : Config → ℕ
republish_ms cfg = u32 (cfg.sk_republish_s * 1000)

-- `if (t == TREE_CONTROLS)`
unfoldable pub only_controls : Tree → List Call → List Call
only_controls switches calls = []
only_controls controls calls = calls

-- declare_names
unfoldable pub declare_names : Config → Tree → Bool → ℕ → List Call
unfolding republish_ms only_controls name_of
declare_names cfg t input ch =
    declare_meta (channel t input ch state) (meta_json (name_of cfg input ch)) (republish_ms cfg)
    ∷ (only_controls t (publish_string (channel t input ch name) (name_of cfg input ch) ∷ [])
        ++ (declare_meta (channel t input ch run_time) (codes "{\"units\":\"s\"}") 0 ∷ []))

-- What a counter function leaves in `cycles` and `runtime_s`, which start at 0.
unfoldable pub counts : Option (Tree → ℕ → ℕ × ℕ) → Tree → ℕ → ℕ × ℕ
counts none t ch = (0, 0)
counts (some read) t ch = read t ch

-- publish_counters
unfoldable pub publish_counters : Io → Tree → Bool → ℕ → List Call
unfolding counts
publish_counters io t input ch =
    let both = if input then counts io.input_counters t ch else counts io.relay_counters t ch in
    publish_number (channel t input ch cycles) both.0
    ∷ publish_number (channel t input ch run_time) both.1
    ∷ []

-- publish_description
unfoldable pub publish_description : Tree → Bool → ℕ → List Call
publish_description switches input ch = publish_number (channel switches input ch order) ch ∷ []
publish_description controls input ch =
    publish_string (channel controls input ch kind) (codes "switch")
    ∷ publish_string (channel controls input ch manufacturer_name) (codes "Waveshare")
    ∷ publish_string (channel controls input ch manufacturer_model) (codes "ESP32-S3-ETH-8DI-8RO-C")
    ∷ []

-- `for (ch = 1; ch <= n; ch++)`
unfoldable pub each_channel : ℕ → (ℕ → List Call) → List Call
each_channel zero f = []
each_channel (suc n) f = each_channel n f ++ f (suc n)

-- `for (t = TREE_SWITCHES; t <= TREE_CONTROLS; t++) if (tree_on(t))`
unfoldable pub each_tree : Config → (Tree → List Call) → List Call
unfolding tree_on
each_tree cfg f =
    (if tree_on cfg switches then f switches else [])
    ++ (if tree_on cfg controls then f controls else [])

-- What publish_states_locked() publishes of an input.
unfoldable pub input_states : Config → Io → Tree → ℕ → List Call
unfolding alarm_configured publish_state publish_notification publish_counters
input_states cfg io t ch =
    let on = test (io.input_mask 0) (ch - 1) in
    publish_state t true ch on
    ++ (publish_counters io t true ch
        ++ (if on && alarm_configured cfg ch then publish_notification cfg t ch true else []))

-- The body of the loop of publish_states_locked().
unfoldable pub states_of : Config → Io → Tree → ℕ → List Call
unfolding input_states publish_state publish_counters inputs_on
states_of cfg io t ch =
    publish_state t false ch (test io.relay_mask (ch - 1))
    ++ (publish_counters io t false ch
        ++ (if inputs_on cfg && io.inputs_ready 0 then input_states cfg io t ch else []))

-- The calls of publish_states_locked().
unfoldable pub publish_states : Config → Io → List Call
unfolding each_tree each_channel states_of
publish_states cfg io = each_tree cfg (λ t. each_channel channels (states_of cfg io t))

-- What publish_all_locked() publishes of an input.
unfoldable pub input_all : Config → Io → Tree → ℕ → List Call
unfolding alarm_configured publish_state publish_notification publish_counters publish_description
input_all cfg io t ch =
    let on = test (io.input_mask 0) (ch - 1) in
    publish_description t true ch
    ++ (publish_state t true ch on
        ++ (publish_counters io t true ch
            ++ (if alarm_configured cfg ch then publish_notification cfg t ch on else [])))

-- The body of the loop of publish_all_locked().
unfoldable pub all_of : Config → Io → Tree → ℕ → List Call
unfolding input_all publish_state publish_counters publish_description inputs_on
all_of cfg io t ch =
    publish_description t false ch
    ++ (publish_state t false ch (test io.relay_mask (ch - 1))
        ++ (publish_counters io t false ch
            ++ (if inputs_on cfg && io.inputs_ready 0 then input_all cfg io t ch else [])))

-- The calls of publish_all_locked().
unfoldable pub publish_all : Config → Io → List Call
unfolding each_tree each_channel all_of
publish_all cfg io = each_tree cfg (λ t. each_channel channels (all_of cfg io t))
