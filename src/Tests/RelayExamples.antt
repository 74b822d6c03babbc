-- ===== src/Tests/RelayExamples.antt =====
-- The theorems on relay_ctrl.c at states of the bench.
use signalk_esp_os_8relay.Base.{true, ◌≡◌, ◌⊎◌, refl, arith}
use signalk_esp_os_8relay.Base.Bits.{test, test-zero}
use signalk_esp_os_8relay.Board.{ok}
use signalk_esp_os_8relay.DeviceConfig.Interlock.{derive_interlocks-WellPaired}
use signalk_esp_os_8relay.Relay.State.{Ctrl, Source}
use signalk_esp_os_8relay.Relay.Switch.{set_to, set_or_toggle}
use signalk_esp_os_8relay.Relay.Tick.{tick, ended, expired, dead_time_over}
use signalk_esp_os_8relay.Relay.Boot.{init, reset}
use signalk_esp_os_8relay.Relay.Pairs.{WellPaired}
use signalk_esp_os_8relay.Relay.Exclusive.Switch.{Interlocked, set_or_toggle-Interlocked}
use signalk_esp_os_8relay.Relay.Exclusive.Update.{NoneWaitTogether, tick_both_waiting}
use signalk_esp_os_8relay.Relay.Timed.{Timed}
use signalk_esp_os_8relay.Relay.Timed.Switch.{set_or_toggle-Timed}
use signalk_esp_os_8relay.Relay.Restore.{init-Interlocked, init-Timed}
use signalk_esp_os_8relay.Relay.Runs.{Step, Run, boot-Run-Interlocked, boot-Run-Timed}
use package.signalk_esp_os_8relay.Tests.Bench.{
  Bench, bench_hw, plain_config, paired_relays, paired_config, swapped_relays, swapped_config,
  powered,
}
use package.signalk_esp_os_8relay.Tests.RelayRuns.{act, run, booted, waiting_pair}

paired_config-WellPaired : WellPaired paired_config
paired_config-WellPaired =
    derive_interlocks-WellPaired (record plain_config { relays = paired_relays })

swapped_config-WellPaired : WellPaired swapped_config
swapped_config-WellPaired =
    derive_interlocks-WellPaired (record plain_config { relays = swapped_relays })

abbrev blank : Ctrl Bench
blank = reset powered paired_config

boot_ok : (init bench_hw true paired_config blank).1 ≡ ok
unfolding booted
boot_ok = refl

booted-Interlocked : Interlocked booted
unfolding booted
booted-Interlocked =
    init-Interlocked bench_hw paired_config paired_config-WellPaired blank true boot_ok

booted-Timed : Timed booted
unfolding booted
booted-Timed = init-Timed bench_hw paired_config paired_config-WellPaired blank true boot_ok

-- Relay 1 is on.
abbrev first_on : Ctrl Bench
first_on = (set_or_toggle bench_hw booted 1 (set_to true) Source.web).0

first_on-Interlocked : Interlocked first_on
first_on-Interlocked =
    set_or_toggle-Interlocked bench_hw booted-Interlocked 1 (set_to true) Source.web

first_on-Timed : Timed first_on
first_on-Timed = set_or_toggle-Timed bench_hw booted-Timed 1 (set_to true) Source.web

-- Relay 2 waits.
abbrev handing_over : Ctrl Bench
handing_over = (set_or_toggle bench_hw first_on 2 (set_to true) Source.n2k).0

handing_over-Interlocked : Interlocked handing_over
handing_over-Interlocked =
    set_or_toggle-Interlocked bench_hw first_on-Interlocked 2 (set_to true) Source.n2k

tick_both_waiting_example :
    ((tick bench_hw waiting_pair).0.i2c_fault ≡ true)
    ⊎ ((test (tick bench_hw waiting_pair).0.mask 1 ≡ true)
        × (test (tick bench_hw waiting_pair).0.mask 3 ≡ true))
unfolding run booted ended expired dead_time_over
tick_both_waiting_example =
    tick_both_waiting bench_hw waiting_pair 1 3 swapped_config-WellPaired (omega arith) refl
      (refl, refl) (refl, refl) (refl, refl)

nothing_waits : first_on.pending_on ≡ 0
unfolding act booted
nothing_waits = refl

none_wait : NoneWaitTogether swapped_config first_on.pending_on
none_wait i p h e = rw (nothing_waits, test-zero i) refl

-- After the boot relay 1 is switched on, the time goes by, and relay 2 is asked for.
abbrev in_use :
    Run bench_hw booted
      (set_or_toggle bench_hw (tick bench_hw first_on).0 2 (set_to true) Source.n2k).0
in_use =
    Run.next
      (Run.next (Run.next Run.start (Step.command booted 1 (set_to true) Source.web))
        (Step.time first_on))
      (Step.command (tick bench_hw first_on).0 2 (set_to true) Source.n2k)

boot-Run-Interlocked_example :
    Interlocked (set_or_toggle bench_hw (tick bench_hw first_on).0 2 (set_to true) Source.n2k).0
unfolding booted
boot-Run-Interlocked_example =
    boot-Run-Interlocked bench_hw (record plain_config { relays = paired_relays }) blank true
      boot_ok in_use

boot-Run-Timed_example :
    Timed (set_or_toggle bench_hw (tick bench_hw first_on).0 2 (set_to true) Source.n2k).0
unfolding booted
boot-Run-Timed_example =
    boot-Run-Timed bench_hw (record plain_config { relays = paired_relays }) blank true boot_ok
      in_use
