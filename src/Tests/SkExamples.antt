-- ===== src/Tests/SkExamples.antt =====
-- The theorems on sk_bridge.c at inputs that meet their hypotheses, and some runs.
use signalk_esp_os_8relay.Base.{
  Option, ℕ, zero, suc, ◌+◌, ◌≤◌, ◌≡◌, refl, arith, true, false, List, [], ◌∷◌, codes, none, some,
}
use signalk_esp_os_8relay.Board.{Status, ok}
use signalk_esp_os_8relay.DeviceConfig.{Config, InputCfg, InputAlarm}
use signalk_esp_os_8relay.N2kAlert.{first}
use signalk_esp_os_8relay.SkBridge.Text.{
  Tree, switches, controls, state, decimal, json_escape, hex_digit, meta_json, meta_text,
  notification_json, raised_text, alarm_state_str, raw_message, make_path, path_text, bank_of,
  leaf_text,
}
use signalk_esp_os_8relay.SkBridge.Publish.{Io, tree_on, inputs_on, alarm_configured}
use signalk_esp_os_8relay.SkBridge.State.{
  republish_due, Bridge, start, stream_changed, tick, relay_changed, init,
}
use signalk_esp_os_8relay.SkBridge.View.{Value, view, is_state, is_alarm, shown, notice}
use signalk_esp_os_8relay.SkBridge.Shown.{stream_changed-shown, bit_of, is_live}
use signalk_esp_os_8relay.SkBridge.Server.{
  World, Run, Step, begun, switched, reported, connected, period_over, ticked,
}
use signalk_esp_os_8relay.SkBridge.Sync.{Run-synced}
use signalk_esp_os_8relay.SkBridge.Lost.{
  Event, after_ticks, tick_fires, outages, fires, owed, fires-outages, outage-reported,
}
use signalk_esp_os_8relay.SkBridge.Escape.{unescape, unescape-json_escape, json-whole}
use signalk_esp_os_8relay.SkBridge.Paths.{make_path-injective}
use signalk_esp_os_8relay.Tests.Bench.{plain_config, plain_input}

-- Input 1 raises an alarm; the server is told every minute.
abbrev alarmed_inputs : ℕ → InputCfg
alarmed_inputs zero = record plain_input { name = codes "Bilge"; alarm = InputAlarm.alarm }
alarmed_inputs (suc i) = plain_input

abbrev bridge_config : Config
bridge_config = record plain_config { inputs = alarmed_inputs; sk_republish_s = 60 }

-- Relays 1 and 3 are on, input 1 is on, at a time in milliseconds.
abbrev io_at : ℕ → Io
io_at now = record {
  relay_mask = 5;
  inputs_ready = λ i. true;
  input_mask = λ i. 1;
  now_ms = λ i. now;
  relay_counters = none;
  input_counters = none;
}

-- The bridge before it is started, and running with the stream up.
abbrev unstarted : Bridge
unstarted = record {
  ready = true;
  cfg = plain_config;
  started = false;
  connected_once = false;
  down = false;
  lost_fired = false;
  down_since = 0;
  republished_at = 0;
}

abbrev running : Bridge
running = record unstarted { cfg = bridge_config; started = true; connected_once = true }

stream_changed-shown_example :
    (view (is_state switches false 3) (stream_changed (io_at 1000) true running).1 none
      ≡ shown true)
    × (view (is_alarm switches 3) (stream_changed (io_at 1000) true running).1 none ≡ none)
unfolding tree_on is_live bit_of alarm_configured inputs_on shown notice
stream_changed-shown_example =
    stream_changed-shown (io_at 1000) running switches false 3 none refl refl

abbrev accepted : Tree → ℕ → Status
accepted t ch = ok

-- Started, and connected; then calls are lost, relay 2 comes on and its listener reports in vain. The
-- stream comes back, the server forgets, and a minute later everything is published again.
abbrev first_world : World
first_world = begun true accepted (io_at 0) bridge_config unstarted

abbrev io_later : ℕ → Io
io_later now = record (io_at now) { relay_mask = 7 }

abbrev nothing_held : Tree → ℕ → Option Value
nothing_held t k = none

abbrev cut_off : World
cut_off = record (connected first_world (io_at 10)) { up = false }

abbrev missed : World
missed = reported (switched cut_off 7) (io_later 50) 2

abbrev forgotten : World
forgotten = record (connected missed (io_later 100)) { server = nothing_held; intact = false }

synced_run : Run first_world (ticked forgotten (io_later 60100))
unfolding switched connected reported begun
synced_run =
    Run.next
      (Run.next
        (Run.next
          (Run.next
            (Run.next (Run.next (Run.next Run.here (Step.connect (io_at 10) refl)) Step.cut)
              (Step.switch 7))
            (Step.report (io_later 50) 2 refl))
          (Step.connect (io_later 100) refl))
        (Step.disturb nothing_held))
      (Step.time (io_later 60100) refl)

Run-synced_example : (ticked forgotten (io_later 60100)).server controls 2 ≡ shown true
unfolding init tree_on reported relay_changed switched connected ticked period_over begun start
    stream_changed tick republish_due
Run-synced_example =
    Run-synced true accepted (io_at 0) bridge_config unstarted controls 2 refl synced_run refl refl
      refl refl refl

abbrev first_ticks : List Io
first_ticks = io_at 2000 ∷ io_at 10999 ∷ []

outage-reported_example :
    (tick_fires first_ticks (stream_changed (io_at 1000) false running).0 ≡ 0)
    × ((tick
          (io_at 11000)
          (after_ticks first_ticks (stream_changed (io_at 1000) false running).0)).2
        ≡ true)
    × (tick_fires
          (io_at 12000 ∷ [])
          (tick
            (io_at 11000)
            (after_ticks first_ticks (stream_changed (io_at 1000) false running).0)).0
        ≡ 0)
outage-reported_example =
    outage-reported running (io_at 1000) (io_at 11000) first_ticks (io_at 12000 ∷ []) refl refl refl
      refl (omega arith, omega arith) (omega arith)

-- One outage, reported once.
abbrev one_outage : List Event
one_outage =
    Event.stream (io_at 1000) false ∷ Event.time (io_at 11000) ∷ Event.time (io_at 12000) ∷ []

fires-outages_example : fires one_outage running ≤ outages one_outage running + owed running
fires-outages_example = fires-outages one_outage running

unescape-json_escape_example :
    unescape (json_escape 72 (codes "Pump \"A\"")) ≡ some (codes "Pump \"A\"")
unescape-json_escape_example =
    unescape-json_escape 72 (codes "Pump \"A\"") (omega arith) (omega arith)

-- A name that is escaped, and the alarm of an input with a message of its own.
abbrev odd_input : InputCfg
odd_input = record plain_input { alarm = InputAlarm.warn; alarm_msg = codes "Low \\ oil" }

json-whole_example :
    (meta_json (codes "A\"B") ≡ meta_text (json_escape 72 (codes "A\"B")))
    × (notification_json odd_input true
        ≡ raised_text (alarm_state_str InputAlarm.warn) (json_escape 80 (raw_message odd_input)))
json-whole_example = json-whole (codes "A\"B") odd_input

escaped_name : json_escape 72 (codes "A\"B") ≡ codes "A\\\"B"
unfolding json_escape hex_digit
escaped_name = refl

relay_path :
    make_path plain_config controls false 3 state
    ≡ codes "electrical.controls.espOS-instance0-relay3.state"
unfolding make_path path_text bank_of leaf_text decimal first
relay_path = refl

make_path-injective_example :
    (switches ≡ switches)
    × (false ≡ false)
    × (3 ≡ bridge_config.input_bank_id + 2)
    × (state ≡ state)
unfolding inputs_on
make_path-injective_example =
    make_path-injective bridge_config (omega arith) (omega arith) switches switches false false 3 3
      state state refl (omega arith) (omega arith) refl
