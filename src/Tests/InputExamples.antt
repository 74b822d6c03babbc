-- ===== src/Tests/InputExamples.antt =====
-- The theorems on input_sense.c at concrete polls.
use signalk_esp_os_8relay.Base.{
  if◌then◌else◌, true, false, ◌&&◌, ◌||◌, leb, [], ◌∷◌, ◌≡◌, refl, arith,
}
use signalk_esp_os_8relay.Base.Bits.{test}
use signalk_esp_os_8relay.Base.Masks.{mask_of}
use signalk_esp_os_8relay.Base.Words.{add32, sub32}
use signalk_esp_os_8relay.InputSense.{Inputs, startup_grace_ms, read_input, init, update_config}
use signalk_esp_os_8relay.InputSense.Poll.{poll, start_up, settled}
use signalk_esp_os_8relay.InputSense.Settle.{is_settled, poll-stable}
use signalk_esp_os_8relay.InputSense.Start.{all_settled, reports_of, all_reports, poll-start}
use signalk_esp_os_8relay.InputSense.Events.{switches, some_of, update_config-switches}
use package.signalk_esp_os_8relay.Tests.Bench.{plain_config, paired_config}

-- Input 1 is energised from the start; two listeners.
abbrev starting : Inputs
starting = init plain_config (1 ∷ 2 ∷ []) 254 0

abbrev started : Inputs
started = (poll 254 60000 starting).0

started-ready : started.ready ≡ true
unfolding poll start_up settled init mask_of
started-ready = refl

poll-stable_example : test (poll 252 60010 started).0.stable 1 ≡ (
    if is_settled 252 60010 started 1 then read_input started.cfg 252 1 else test started.stable 1)
poll-stable_example = poll-stable 252 60010 started 1 (omega arith) started-ready

poll-start_example :
    ((poll 254 60000 starting).0.ready ≡ (
      all_settled 254 60000 starting
      || leb (add32 starting.cfg.debounce_ms startup_grace_ms) (sub32 60000 starting.start_ms)))
    × (test (poll 254 60000 starting).0.stable 0 ≡ (
        if (poll 254 60000 starting).0.ready
        then is_settled 254 60000 starting 0 && read_input starting.cfg 254 0
        else test starting.stable 0))
    × ((poll 254 60000 starting).0.published ≡ (
        if (poll 254 60000 starting).0.ready
        then (poll 254 60000 starting).0.stable
        else starting.published))
    × (reports_of (poll 254 60000 starting).1 ≡ (
        if (poll 254 60000 starting).0.ready
        then all_reports starting.listeners (poll 254 60000 starting).0.stable 8
        else []))
unfolding init
poll-start_example = poll-start 254 60000 starting 0 (omega arith) refl

update_config-switches_example : some_of switches (update_config paired_config started).1 ≡ false
update_config-switches_example = update_config-switches paired_config started
