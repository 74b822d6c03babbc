-- ===== src/Tests/Bench.antt =====
-- A relay board for the tests: an expander whose registers can be read and written, a store and a
-- clock; and settings to run with.
use signalk_esp_os_8relay.Base.{pos, ℕ, zero, suc, ◌+◌, ◌==◌, if◌then◌else◌, Bool, true, false, []}
use signalk_esp_os_8relay.Board.{Status, Reply, ok, fail, got, failed, no_mem}
use signalk_esp_os_8relay.DeviceConfig.{
  ScheduleCfg, ScheduleTime, ScheduleMode, by_clock, Config, RelayCfg, InputCfg, InputAlarm,
  latching, momentary, default_safe, follow, signalk,
}
use signalk_esp_os_8relay.DeviceConfig.Interlock.{derive_interlocks}
use signalk_esp_os_8relay.Relay.State.{Hw, Ctrl}

-- `working` says whether the expander answers.
pub record Bench : Type 0 where
  pub output : ℕ
  pub directions : ℕ
  pub stored : ℕ
  pub time : ℕ
  pub working : Bool

-- The output register, the register of the directions, and no other.
abbrev pub bench_registers : Bench → ℕ → ℕ
bench_registers b r = if r == 1 then b.output else if r == 3 then b.directions else 0

abbrev read_register : Bench → ℕ → Bench × Reply ℕ
read_register b r = (b, if b.working then got (bench_registers b r) else failed no_mem)

abbrev write_register : Bench → ℕ → ℕ → Bench × Status
write_register b r v =
    if b.working
    then (
      (if r == 1
          then record b { output = v }
          else if r == 3
          then record b { directions = v }
          else b),
      ok,
    )
    else (b, fail no_mem)

abbrev pub bench_hw : Hw Bench
bench_hw = record {
  expander = record { read_reg = read_register; write_reg = write_register };
  store = record {
    load = λ b. (b, got b.stored);
    save = λ b mask. (record b { stored = mask }, ok);
  };
  now_ms = λ b. b.time;
}

-- A latching relay that goes off on every restart.
abbrev pub plain_relay : RelayCfg
plain_relay = record {
  name = [];
  mode = latching;
  pulse_ms = 500;
  failsafe = default_safe;
  override_di = 0;
  wired_nc = false;
  link = follow;
  max_on_s = 0;
  interlock = 0;
}

abbrev pub plain_input : InputCfg
plain_input = record {
  name = [];
  invert = false;
  alarm = InputAlarm.off;
  alarm_msg = [];
  alarm_buzz = false;
}

abbrev midnight : ScheduleTime
midnight = record { kind = by_clock; minute_of_day = 0; offset_min = pos 0 }

abbrev pub no_schedule : ScheduleCfg
no_schedule = record {
  relay = 0;
  mode = ScheduleMode.clock;
  on = midnight;
  off = midnight;
  on_min = 0;
  period_min = 0;
  days = 0;
}

abbrev pub plain_config : Config
plain_config = record {
  bank_id = 0;
  input_bank_id = 1;
  debounce_ms = 50;
  sk_loss_grace_s = 10;
  sk_republish_s = 0;
  publish_switches_tree = true;
  publish_controls_tree = true;
  n2k_alerts = true;
  position_source = signalk;
  interlock_dead_ms = 200;
  relays = λ i. plain_relay;
  inputs = λ i. plain_input;
  interlock_invalid = 0;
  schedules = λ i. no_schedule;
  schedule_relay_conflict = 0;
}

-- Relays 1 and 2 are a pair, so are 3 and 4; relay 5 is momentary, relay 6 is on for 10 s at most.
abbrev pub paired_relays : ℕ → RelayCfg
paired_relays zero = record plain_relay { interlock = 2 }
paired_relays (suc zero) = record plain_relay { interlock = 1 }
paired_relays (suc (suc zero)) = record plain_relay { interlock = 4 }
paired_relays (suc (suc (suc zero))) = record plain_relay { interlock = 3 }
paired_relays (suc (suc (suc (suc zero)))) = record plain_relay { mode = momentary }
paired_relays (suc (suc (suc (suc (suc zero))))) = record plain_relay { max_on_s = 10 }
paired_relays (suc (suc (suc (suc (suc (suc i)))))) = plain_relay

abbrev pub paired_config : Config
paired_config = derive_interlocks (record plain_config { relays = paired_relays })

-- Relays 2 and 4 are a pair instead.
abbrev pub swapped_relays : ℕ → RelayCfg
swapped_relays (suc zero) = record plain_relay { interlock = 4 }
swapped_relays (suc (suc (suc zero))) = record plain_relay { interlock = 2 }
swapped_relays _ = plain_relay

abbrev pub swapped_config : Config
swapped_config = derive_interlocks (record plain_config { relays = swapped_relays })

-- The board after power-on, with nothing stored.
abbrev pub powered : Bench
powered = record { output = 255; directions = 255; stored = 0; time = 1000; working = true }

abbrev pub later : ℕ → Ctrl Bench → Ctrl Bench
later ms s = record s { world = record s.world { time = s.world.time + ms } }
