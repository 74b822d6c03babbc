-- ===== src/Tests/N2kExamples.antt =====
-- The theorems on n2k_bridge.cpp at inputs that meet their hypotheses, and some runs.
use signalk_esp_os_8relay.Base.{ℕ, ◌+◌, ◌≡◌, refl, true, false, List, [], ◌∷◌, none, some}
use signalk_esp_os_8relay.Board.{ok}
use signalk_esp_os_8relay.Alerts.State.{Alerts, init, cfg_from}
use signalk_esp_os_8relay.SwitchBank.Pgn.{field}
use signalk_esp_os_8relay.N2kBridge.State.{
  pgn_control, Message, Bridge, relay_status, input_status, on_message, take_changed,
  take_cfg_changed,
}
use signalk_esp_os_8relay.N2kBridge.Start.{
  Platform, start, start_opened, start_locked, take_banks, unique_number,
}
use signalk_esp_os_8relay.N2kBridge.Control.{
  wanted, restate, on_message-orders, on_message-relay_status,
}
use signalk_esp_os_8relay.N2kBridge.Rounds.{
  World, Run, Step, begun, idle, sending_relays, sending_inputs, sent,
}
use signalk_esp_os_8relay.N2kBridge.Fresh.{Run-told}
use signalk_esp_os_8relay.Tests.Bench.{plain_config}

abbrev no_alerts : Alerts
no_alerts = init (cfg_from plain_config) 1 0 0

-- Before n2k_bridge_start().
abbrev unstarted : Bridge
unstarted = record {
  locked = false;
  relay_bank = 0;
  input_bank = 0;
  inputs_on = false;
  changed = true;
  alerts = no_alerts;
  pending_cfg = cfg_from plain_config;
  cfg_changed = false;
  listeners = [];
  last_rx_tick = 0;
  rx_seen = false;
  started = false;
  address = 0;
}

-- Relay 1 on, relay 2 off, the others left alone.
abbrev command_bytes : List ℕ
command_bytes = 0 ∷ 0xF1 ∷ 0xFF ∷ 0xFF ∷ 0xFF ∷ 0xFF ∷ 0xFF ∷ 0xFF ∷ []

abbrev command : Message
command = record { pgn = pgn_control; priority = 3; payload = command_bytes }

on_message-orders_example : (on_message command unstarted).2 ≡ (1, true) ∷ (2, false) ∷ []
unfolding wanted field
on_message-orders_example = on_message-orders command unstarted

on_message-relay_status_example :
    (on_message (record (relay_status unstarted 5) { pgn = pgn_control }) unstarted).2 ≡ restate 5 8
on_message-relay_status_example = on_message-relay_status unstarted unstarted 5 refl

mac_bytes : ℕ → ℕ
mac_bytes i = 0xF0 + i

abbrev platform : Platform
platform = record {
  nvs_open = ok;
  stored_address = none;
  mac = mac_bytes;
  mutex_made = true;
  device_name = 7;
  now_ms = 100;
  task_made = true;
}

unique_number_low : unique_number mac_bytes ≡ 0x13F4F5
unfolding unique_number mac_bytes
unique_number_low = refl

abbrev first_world : World
first_world = begun platform plain_config unstarted 5 true 1

-- The first round, undisturbed.
abbrev w1 : World
w1 = record first_world { bridge = take_changed first_world.bridge; phase = sending_relays }

abbrev w2 : World
w2 = record w1 { told_relays = some (relay_status w1.bridge 5); phase = sending_inputs }

abbrev w3 : World
w3 = record w2 { told_inputs = input_status w2.bridge true 1; phase = sent }

abbrev w4 : World
w4 = record w3 { bridge = take_cfg_changed w3.bridge; phase = idle }

first_round : Run first_world w4
unfolding begun start start_opened start_locked take_banks take_changed
first_round =
    Run.next
      (Run.next (Run.next (Run.next Run.here (Step.check false refl)) (Step.send_relays refl))
        (Step.send_inputs refl))
      (Step.check_cfg refl)

Run-told_example :
    (w4.told_relays ≡ some (relay_status w4.bridge w4.relay_mask))
    × (w4.told_inputs ≡ input_status w4.bridge w4.inputs_ready w4.input_mask)
    × (w4.bridge.alerts.cfg ≡ w4.wanted)
unfolding begun start start_opened start_locked take_banks take_changed take_cfg_changed
Run-told_example =
    Run-told platform plain_config unstarted 5 true 1 refl refl refl first_round refl refl refl refl
      refl
