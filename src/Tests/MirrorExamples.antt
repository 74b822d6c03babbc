-- ===== src/Tests/MirrorExamples.antt =====
-- The coils and the expander's register on the bench, whose expander is as its datasheet says.
use signalk_esp_os_8relay.Base.{ℕ, ◌≢◌, true, ◌≡◌, refl, arith}
use signalk_esp_os_8relay.Board.{got, ok}
use signalk_esp_os_8relay.Tca9554.Laws.{Chip}
use signalk_esp_os_8relay.Relay.State.{Source}
use signalk_esp_os_8relay.Tca9554.{all_outputs, init_outputs}
use signalk_esp_os_8relay.Base.Masks.{mask_of}
use signalk_esp_os_8relay.Relay.Commit.{report_interlock_health, track_max_on}
use signalk_esp_os_8relay.Relay.Switch.{set_to, set_or_toggle}
use signalk_esp_os_8relay.Relay.Mirror.{Mirrored, set_or_toggle-Mirrored}
use signalk_esp_os_8relay.DeviceConfig.{Config, RelayCfg, hold, effective_failsafe}
use signalk_esp_os_8relay.DeviceConfig.Interlock.{derive_interlocks, derive_interlocks-WellPaired}
use signalk_esp_os_8relay.Relay.State.{
  Ctrl, to_reg, clear_interlock_conflicts, in_conflict, hold_mask, max_on_ms,
}
use signalk_esp_os_8relay.Relay.Boot.{
  init, reset, boot_from, restore_from, held_outputs, restore, settle_from, write_target, prepare,
  settle,
}
use signalk_esp_os_8relay.Relay.Resume.{Resumed, init-Resumed}
use package.signalk_esp_os_8relay.Tests.Bench.{
  Bench, bench_registers, bench_hw, plain_relay, plain_config, powered,
}
use package.signalk_esp_os_8relay.Tests.RelayRuns.{booted}

faithful :
    (b : Bench) (r v : ℕ) → (bench_hw.expander.read_reg b r).1 ≡ got v → bench_registers b r ≡ v
faithful b r v e = ground arith

apart :
    (b : Bench) (r v k : ℕ)
    → k ≢ r
    → (bench_hw.expander.write_reg b r v).1 ≡ ok
    → bench_registers (bench_hw.expander.write_reg b r v).0 k ≡ bench_registers b k
apart b r v k d e = ground arith

bench-Chip : Chip bench_hw.expander bench_registers
bench-Chip = record { read_faithful = faithful; read_passive = λ b r k. refl; write_apart = apart }

booted-Mirrored : Mirrored bench_registers booted
unfolding booted
booted-Mirrored _ = refl

set_or_toggle-Mirrored_example :
    Mirrored bench_registers (set_or_toggle bench_hw booted 5 (set_to true) Source.web).0
set_or_toggle-Mirrored_example =
    set_or_toggle-Mirrored bench_hw bench_registers bench-Chip booted booted-Mirrored 5
      (set_to true) Source.web

-- Every relay holds; relays 1 and 3 are stored, and the board has been without power.
abbrev holding_relays : ℕ → RelayCfg
holding_relays i = record plain_relay { failsafe = hold }

abbrev holding_config : Config
holding_config = derive_interlocks (record plain_config { relays = holding_relays })

abbrev unpowered : Ctrl Bench
unpowered = reset (record powered { stored = 5 }) plain_config

holding_boot :
    ((init bench_hw true holding_config unpowered).1 ≡ ok)
    × ((init bench_hw true holding_config unpowered).0.mask ≡ 5)
unfolding init reset boot_from restore_from held_outputs restore settle_from write_target prepare
    settle all_outputs init_outputs to_reg clear_interlock_conflicts in_conflict derive_interlocks
    hold_mask mask_of effective_failsafe report_interlock_health track_max_on max_on_ms
holding_boot = (refl, refl)

init-Resumed_example :
    Resumed bench_hw bench_registers holding_config unpowered
      (init bench_hw true holding_config unpowered).0
init-Resumed_example =
    init-Resumed bench_hw bench_registers bench-Chip holding_config
      (derive_interlocks-WellPaired (record plain_config { relays = holding_relays })) unpowered
      true holding_boot.0
