-- ===== src/N2kBridge/Rounds.antt =====
-- The task of n2k_bridge.cpp beside the tasks that change relays and inputs and save settings: its
-- round in the pieces between which the others can run.
use signalk_esp_os_8relay.Base.{
  ℕ, ◌+◌, ◌-◌, ◌<◌, ◌≡◌, if◌then◌else◌, Bool, true, false, ◌||◌, List, [], Option, none, some,
}
use signalk_esp_os_8relay.DeviceConfig.{Config}
use signalk_esp_os_8relay.Alerts.State.{AlertsCfg, cfg_from}
use signalk_esp_os_8relay.Alerts.Tick
use signalk_esp_os_8relay.N2kBridge.State.{
  Message, Bridge, relay_status, input_status, take_changed, take_cfg_changed, apply_cfg,
  state_changed, running_cfg, store_cfg, flag_cfg, on_message,
}
use signalk_esp_os_8relay.N2kBridge.Start.{Platform, start}

-- Where the task is in its round.
pub data Phase : Type 0 where
  idle sending_relays sending_inputs sent configuring : Phase

unfoldable pub before_relays : Phase → Bool
before_relays idle = false
before_relays sending_relays = true
before_relays sending_inputs = false
before_relays sent = false
before_relays configuring = false

unfoldable pub before_inputs : Phase → Bool
before_inputs idle = false
before_inputs sending_relays = true
before_inputs sending_inputs = true
before_inputs sent = false
before_inputs configuring = false

unfoldable pub is_configuring : Phase → Bool
is_configuring idle = false
is_configuring sending_relays = false
is_configuring sending_inputs = false
is_configuring sent = false
is_configuring configuring = true

-- The bridge, what the relays and inputs are, whether a change is still to be told to the bridge, and
-- what the bus was last told. `wanted` are the settings of the alerts as last saved, `saving` counts
-- the calls of n2k_bridge_update_config() that have stored theirs and not yet set the flag.
pub record World : Type 0 where
  pub bridge : Bridge
  pub phase : Phase
  pub relay_mask : ℕ
  pub inputs_ready : Bool
  pub input_mask : ℕ
  pub untold : Bool
  pub told_relays : Option Message
  pub told_inputs : List Message
  pub wanted : AlertsCfg
  pub saving : ℕ

pub data Step (w : World) : World → Type 0 where
  change :
      (relays : ℕ) (ready : Bool) (inputs : ℕ)
      → Step w (record w {
        relay_mask = relays;
        inputs_ready = ready;
        input_mask = inputs;
        untold = true;
      })
  tell : Step w (record w { bridge = state_changed w.bridge; untold = false })
  -- `due` is what the clock says.
  check :
      (due : Bool)
      → w.phase ≡ idle
      → Step w (record w {
        bridge = take_changed w.bridge;
        phase = if w.bridge.changed || due then sending_relays else sent;
      })
  send_relays :
      w.phase ≡ sending_relays
      → Step w (record w {
        told_relays = some (relay_status w.bridge w.relay_mask);
        phase = sending_inputs;
      })
  send_inputs :
      w.phase ≡ sending_inputs
      → Step w (record w {
        told_inputs = input_status w.bridge w.inputs_ready w.input_mask;
        phase = sent;
      })
  check_cfg :
      w.phase ≡ sent
      → Step w (record w {
        bridge = take_cfg_changed w.bridge;
        phase = if w.bridge.cfg_changed then configuring else idle;
      })
  configure :
      w.phase ≡ configuring → Step w (record w { bridge = apply_cfg w.bridge; phase = idle })
  store :
      (cfg : Config)
      → Step w (record w {
        bridge = store_cfg (running_cfg cfg w.bridge) w.bridge;
        wanted = running_cfg cfg w.bridge;
        saving = w.saving + 1;
      })
  alerts_tick :
      (ready : Bool) (mask now : ℕ)
      → Step w (record w {
        bridge = record w.bridge { alerts = (Tick.tick ready mask now w.bridge.alerts).0 };
      })
  message : (msg : Message) → Step w (record w { bridge = (on_message msg w.bridge).0 })
  flag : 0 < w.saving → Step w (record w { bridge = flag_cfg w.bridge; saving = w.saving - 1 })

pub data Run (w : World) : World → Type 0 where
  here : Run w w
  next : {u v : World} → Run w u → Step u v → Run w v

-- The world after n2k_bridge_start(), before the first round of the task.
unfoldable pub begun : Platform → Config → Bridge → ℕ → Bool → ℕ → World
begun env cfg s relays ready inputs = record {
  bridge = (start env cfg s).0;
  phase = idle;
  relay_mask = relays;
  inputs_ready = ready;
  input_mask = inputs;
  untold = false;
  told_relays = none;
  told_inputs = [];
  wanted = cfg_from cfg;
  saving = 0;
}
