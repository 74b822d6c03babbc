-- ===== src/Tests/RelayRuns.antt =====
-- Runs of relay_ctrl.c on the bench.
use signalk_esp_os_8relay.Base.{ℕ, Bool, true, ◌≡◌, refl, List, [], ◌∷◌}
use signalk_esp_os_8relay.Base.Bits.{not8, clear, meets}
use signalk_esp_os_8relay.Base.Masks.{mask_of}
use signalk_esp_os_8relay.DeviceConfig.{Config, effective_failsafe}
use signalk_esp_os_8relay.DeviceConfig.Interlock.{derive_interlocks}
use signalk_esp_os_8relay.Tca9554.{all_outputs, read_outputs, write_outputs, init_outputs}
use signalk_esp_os_8relay.Relay.State.{
  Ctrl, Source, update, to_reg, from_reg, is_momentary, hold_mask, max_on_ms, interlock_partner_bit,
  in_conflict, clear_interlock_conflicts, deadline_passed, interlock_report,
}
use signalk_esp_os_8relay.Relay.Commit.{commit, track_max_on, report_fault, report_interlock_health}
use signalk_esp_os_8relay.Relay.Notify.{is_channel}
use signalk_esp_os_8relay.Relay.Switch.{set, start_pulse, sk_lost}
use signalk_esp_os_8relay.Relay.Update.{
  update_config, adopt_config, part_conflicts, repulse_loop, repulse_channel,
}
use signalk_esp_os_8relay.Relay.Tick.{
  tick, end_pulses, end_limits, fire_pending, save_when_due, fire_loop, fired_loop, fire_channel,
}
use signalk_esp_os_8relay.Relay.Boot.{
  init, reset, boot_from, restore_from, held_outputs, restore, settle_from, write_target, prepare,
  settle,
}
use package.signalk_esp_os_8relay.Tests.Bench.{
  Bench, bench_hw, paired_config, swapped_config, powered, later,
}

pub data Action : Type 0 where
  command : ℕ → Bool → Action
  configure : Config → Action
  wait : ℕ → Action
  lost : Action

-- `wait` lets the time pass and then ticks once.
unfoldable pub act : Action → Ctrl Bench → Ctrl Bench
unfolding set update_config sk_lost tick not8 clear meets mask_of effective_failsafe all_outputs
    read_outputs write_outputs init_outputs update to_reg from_reg is_momentary hold_mask max_on_ms
    interlock_partner_bit in_conflict clear_interlock_conflicts deadline_passed interlock_report
    commit track_max_on report_fault report_interlock_health is_channel start_pulse end_pulses
    end_limits fire_pending save_when_due fire_loop fired_loop fire_channel adopt_config
    part_conflicts repulse_loop repulse_channel derive_interlocks
act (command channel on) s = (set bench_hw s channel on Source.web).0
act (configure cfg) s = (update_config bench_hw cfg s).0
act (wait ms) s = (tick bench_hw (later ms s)).0
act lost s = (sk_lost bench_hw s).0

unfoldable pub run : List Action → Ctrl Bench → Ctrl Bench
unfolding act
run [] s = s
run (a ∷ l) s = run l (act a s)

unfoldable pub booted : Ctrl Bench
unfolding init reset act boot_from restore_from held_outputs restore settle_from write_target
    prepare settle
booted = (init bench_hw true paired_config (reset powered paired_config)).0

-- Relay 1 goes on; its partner takes over: both are off, and 200 ms later it is on.
hand_over :
    ((run (command 1 true ∷ []) booted).mask ≡ 1)
    × ((run (command 1 true ∷ command 2 true ∷ []) booted).mask ≡ 0)
    × ((run (command 1 true ∷ command 2 true ∷ wait 199 ∷ []) booted).mask ≡ 0)
    × ((run (command 1 true ∷ command 2 true ∷ wait 200 ∷ []) booted).mask ≡ 2)
unfolding run booted
hand_over = (refl, refl, refl, refl)

-- A pulse of 500 ms, and a maximum on-time of 10 s.
timers :
    ((run (command 5 true ∷ wait 499 ∷ []) booted).mask ≡ 16)
    × ((run (command 5 true ∷ wait 500 ∷ []) booted).mask ≡ 0)
    × ((run (command 6 true ∷ wait 9999 ∷ []) booted).mask ≡ 32)
    × ((run (command 6 true ∷ wait 10000 ∷ []) booted).mask ≡ 0)
unfolding run booted
timers = (refl, refl, refl, refl)

fail_safe_run : (run (command 1 true ∷ command 3 true ∷ lost ∷ []) booted).mask ≡ 0
unfolding run booted
fail_safe_run = refl

-- Relays 2 and 4 wait, each for a partner of its own, when new settings pair them.
abbrev pub waiting_pair : Ctrl Bench
waiting_pair = later 200 (
    run
      (command 1 true
        ∷ command 2 true
        ∷ command 3 true
        ∷ command 4 true
        ∷ configure swapped_config
        ∷ [])
      booted)

-- Both are on after the next tick.
both_on : (tick bench_hw waiting_pair).0.mask ≡ 10
unfolding run booted
both_on = refl
