-- ===== src/N2kBridge/Fresh.antt =====
-- What the bus and the alerts have been told, beside the task of n2k_bridge.cpp.
use signalk_esp_os_8relay.Base.{
  ℕ, ◌≡◌, refl, ◌∙◌, arith, Bool, true, false, not, ◌||◌, ◌==◌, List, none, some,
}
use signalk_esp_os_8relay.Board.{Status, ok, fail}
use signalk_esp_os_8relay.DeviceConfig.{Config}
use signalk_esp_os_8relay.Alerts.State.{Alerts, AlertsCfg, cfg_from, set_config}
use signalk_esp_os_8relay.Alerts.State as AlertsState
use signalk_esp_os_8relay.Alerts.Follow.{tick-cfg}
use signalk_esp_os_8relay.Alerts.Response.{acknowledge, on_response}
use signalk_esp_os_8relay.N2kAlert.{Response, decode_response}
use signalk_esp_os_8relay.N2kBridge.State.{
  Message, Bridge, relay_status, input_status, take_changed, take_cfg_changed, apply_cfg,
  state_changed, store_cfg, flag_cfg, on_message,
}
use signalk_esp_os_8relay.N2kBridge.Start.{Platform, start, start_opened, start_locked, take_banks}
use signalk_esp_os_8relay.N2kBridge.Rounds.{
  World, Step, Run, begun, before_relays, before_inputs, is_configuring, idle, change, tell, check,
  send_relays, send_inputs, check_cfg, configure, store, alerts_tick, message, flag, here, next,
}

-- What is on its way, and what has arrived when nothing is.
record IsFresh (w : World) : Type 0 where
  relays :
      (w.untold || (w.bridge.changed || before_relays w.phase)) ≡ false
      → w.told_relays ≡ some (relay_status w.bridge w.relay_mask)
  inputs :
      (w.untold || (w.bridge.changed || before_inputs w.phase)) ≡ false
      → w.told_inputs ≡ input_status w.bridge w.inputs_ready w.input_mask
  stored :
      (not (w.saving == 0) || (w.bridge.cfg_changed || is_configuring w.phase)) ≡ true
      → w.bridge.pending_cfg ≡ w.wanted
  applied :
      (not (w.saving == 0) || (w.bridge.cfg_changed || is_configuring w.phase)) ≡ false
      → w.bridge.alerts.cfg ≡ w.wanted

acknowledge-cfg : (a : Alerts) (r : Response) → (acknowledge a r).0.cfg ≡ a.cfg
unfolding acknowledge
acknowledge-cfg a r = ground arith

on_response-cfg : (a : Alerts) (payload : List ℕ) → (on_response a payload).0.cfg ≡ a.cfg
unfolding on_response
on_response-cfg a payload =
    elim (decode_response payload)
      as (λ o.
        (elim o as (λ p. Alerts × Bool) [ none ↦ (a, false) | some r ↦ acknowledge a r ]).0.cfg
        ≡ a.cfg) [ none ↦ refl | some r ↦ acknowledge-cfg a r ]

-- A message changes the alerts at most.
on_message-bridge :
    (msg : Message) (s : Bridge)
    → (on_message msg s).0 ≡ record s { alerts = (on_message msg s).0.alerts }
unfolding on_message
on_message-bridge msg s = ground arith

on_message-cfg : (msg : Message) (s : Bridge) → (on_message msg s).0.alerts.cfg ≡ s.alerts.cfg
unfolding on_message
on_message-cfg msg s = ground (arith, on_response-cfg s.alerts msg.payload)

Step-IsFresh : {w v : World} → Step w v → IsFresh w → IsFresh v
unfolding state_changed take_changed take_cfg_changed apply_cfg store_cfg flag_cfg relay_status
    input_status before_relays before_inputs is_configuring set_config
Step-IsFresh {w} (change relays ready inputs) good = record {
  relays = λ h. cc;
  inputs = λ h. cc;
  stored = good.stored;
  applied = good.applied;
}
Step-IsFresh {w} tell good = record {
  relays = λ h. ground (arith, h);
  inputs = λ h. ground (arith, h);
  stored = good.stored;
  applied = good.applied;
}
Step-IsFresh {w} (check due at) good =
    let r = good.relays in
    let i = good.inputs in
    let s = good.stored in
    let a = good.applied in
    record {
      relays = λ h. ground (arith, r, h);
      inputs = λ h. ground (arith, i, h);
      stored = λ h. ground (arith, s, h);
      applied = λ h. ground (arith, a, s, h);
    }
Step-IsFresh {w} (send_relays at) good =
    let r = good.relays in
    let i = good.inputs in
    let s = good.stored in
    let a = good.applied in
    record {
      relays = λ h. ground (arith, r, h);
      inputs = λ h. ground (arith, i, h);
      stored = λ h. ground (arith, s, h);
      applied = λ h. ground (arith, a, s, h);
    }
Step-IsFresh {w} (send_inputs at) good =
    let r = good.relays in
    let i = good.inputs in
    let s = good.stored in
    let a = good.applied in
    record {
      relays = λ h. ground (arith, r, h);
      inputs = λ h. ground (arith, i, h);
      stored = λ h. ground (arith, s, h);
      applied = λ h. ground (arith, a, s, h);
    }
Step-IsFresh {w} (check_cfg at) good =
    let r = good.relays in
    let i = good.inputs in
    let s = good.stored in
    let a = good.applied in
    record {
      relays = λ h. ground (arith, r, h);
      inputs = λ h. ground (arith, i, h);
      stored = λ h. ground (arith, s, h);
      applied = λ h. ground (arith, a, s, h);
    }
Step-IsFresh {w} (configure at) good =
    let r = good.relays in
    let i = good.inputs in
    let s = good.stored in
    let a = good.applied in
    record {
      relays = λ h. ground (arith, r, h);
      inputs = λ h. ground (arith, i, h);
      stored = λ h. ground (arith, s, h);
      applied = λ h. ground (arith, a, s, h);
    }
Step-IsFresh {w} (store cfg) good =
    let r = good.relays in
    let i = good.inputs in
    let s = good.stored in
    let a = good.applied in
    record {
      relays = λ h. ground (arith, r, h);
      inputs = λ h. ground (arith, i, h);
      stored = λ h. ground (arith, s, h);
      applied = λ h. ground (arith, a, s, h);
    }
Step-IsFresh {w} (alerts_tick ready mask now) good =
    let same = tick-cfg ready mask now w.bridge.alerts in
    record {
      relays = good.relays;
      inputs = good.inputs;
      stored = good.stored;
      applied = λ h. same ∙ good.applied h;
    }
Step-IsFresh {w} (message msg) good =
    let r = good.relays in
    let i = good.inputs in
    let s = good.stored in
    let a = good.applied in
    let same = on_message-cfg msg w.bridge in
    let rest = on_message-bridge msg w.bridge in
    record {
      relays = λ h. ground (arith, r, h, rest);
      inputs = λ h. ground (arith, i, h, rest);
      stored = λ h. ground (arith, s, h, rest);
      applied = λ h. ground (arith, a, h, same, rest);
    }
Step-IsFresh {w} (flag some_left) good =
    let r = good.relays in
    let i = good.inputs in
    let s = good.stored in
    let a = good.applied in
    record {
      relays = λ h. ground (arith, r, h);
      inputs = λ h. ground (arith, i, h);
      stored = λ h. ground (arith, s, h);
      applied = λ h. ground (arith, a, s, h);
    }

Run-IsFresh : {w v : World} → Run w v → IsFresh w → IsFresh v
Run-IsFresh here good = good
Run-IsFresh (next r st) good = Step-IsFresh st (Run-IsFresh r good)

module _ (env : Platform) (cfg : Config) (s : Bridge) (relays : ℕ) (ready : Bool) (inputs : ℕ) where
  -- What a start that succeeds leaves.
  start_opened-ok :
      (b : Bridge) (st : Status)
      → (start_opened env cfg b st).1 ≡ ok
      → ((start_opened env cfg b st).0.alerts.cfg ≡ cfg_from cfg)
        × ((start_opened env cfg b st).0.changed ≡ b.changed)
        × ((start_opened env cfg b st).0.cfg_changed ≡ b.cfg_changed)
  unfolding start_opened start_locked AlertsState.init
  start_opened-ok b ok good = ground (arith, good)
  start_opened-ok b (fail e) good = cc

  begun-IsFresh :
      (start env cfg s).1 ≡ ok
      → s.changed ≡ true
      → s.cfg_changed ≡ false
      → IsFresh (begun env cfg s relays ready inputs)
  unfolding begun start take_banks before_relays before_inputs is_configuring
  begun-IsFresh good changed unchanged =
      let (same, c, u) = start_opened-ok (take_banks cfg s) env.nvs_open good in
      record {
        relays = λ h. ground (arith, h, c, changed);
        inputs = λ h. ground (arith, h, c, changed);
        stored = λ h. ground (arith, h, u, unchanged);
        applied = λ h. same;
      }

  -- In any interleaving of the bridge's task, piece by piece, with changes of the relays and inputs
  -- and their notices, saved settings, incoming messages and ticks of the alerts, after a start
  -- that succeeds: when the task is at the end of a round, no notice is on its way and nothing is
  -- marked as changed, the last status message that the bus was sent has the relays as they are,
  -- and that of the inputs, or its absence, is what they are; and the alerts run on the settings
  -- that were saved last.
  pub Run-told :
      {w : World}
      → (start env cfg s).1 ≡ ok
      → s.changed ≡ true
      → s.cfg_changed ≡ false
      → Run (begun env cfg s relays ready inputs) w
      → w.phase ≡ idle
      → w.untold ≡ false
      → w.bridge.changed ≡ false
      → w.saving ≡ 0
      → w.bridge.cfg_changed ≡ false
      → (w.told_relays ≡ some (relay_status w.bridge w.relay_mask))
        × (w.told_inputs ≡ input_status w.bridge w.inputs_ready w.input_mask)
        × (w.bridge.alerts.cfg ≡ w.wanted)
  unfolding before_relays before_inputs is_configuring
  Run-told {w} good changed unchanged r at untold taken saving applied =
      let fresh = Run-IsFresh r (begun-IsFresh good changed unchanged) in
      let relays_now = fresh.relays in
      let inputs_now = fresh.inputs in
      let settings_now = fresh.applied in
      (
        relays_now (ground (arith, at, untold, taken)),
        inputs_now (ground (arith, at, untold, taken)),
        settings_now (ground (arith, at, saving, applied)),
      )
