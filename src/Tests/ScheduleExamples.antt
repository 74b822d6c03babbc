-- ===== src/Tests/ScheduleExamples.antt =====
-- The theorems on schedule_eval.c at concrete schedules.
use signalk_esp_os_8relay.Base.{
  ℕ, true, false, ◌&&◌, ◌||◌, ltb, [], ◌∷◌, ◌≡◌, refl, arith, pos, negsuc,
}
use signalk_esp_os_8relay.Base.Bits.{test}
use signalk_esp_os_8relay.DeviceConfig.{Config, ScheduleCfg, ScheduleTime, by_clock, sunset}
use signalk_esp_os_8relay.Schedule.{
  Sun, always_down, Local, init, resolve_minute, now_min, clock_active, entry_active,
  no_time_normal, tick,
}
use signalk_esp_os_8relay.Schedule.Windows.{windows, clock_active-windows}
use signalk_esp_os_8relay.Schedule.Edges.{commands, tick-again, tick_after_gap}
use package.signalk_esp_os_8relay.Tests.Bench.{no_schedule, plain_config}

abbrev at_minute : ℕ → ScheduleTime
at_minute m = record { kind = by_clock; minute_of_day = m; offset_min = pos 0 }

-- Fridays from 22:00 to 6:00, relay 2.
abbrev overnight : ScheduleCfg
overnight = record no_schedule { relay = 2; on = at_minute 1320; off = at_minute 360; days = 32 }

abbrev night_config : Config
night_config = record plain_config { schedules = λ i. overnight }

-- Friday at 3:00, and a minute later; the polar night.
abbrev friday : Local
friday = record {
  year = 2026;
  month = 10;
  day = 2;
  hour = 3;
  minute = 0;
  wday = 5;
  utc_offset_s = pos 7200;
}

abbrev minute_later : Local
minute_later = record friday { minute = 1 }

abbrev dark : Local → Sun
dark local = record { kind = always_down; sunrise_unix_ms = pos 0; sunset_unix_ms = pos 0 }

abbrev dusk : ScheduleTime
dusk = record { kind = sunset; minute_of_day = 0; offset_min = negsuc 29 }

clock_active-windows_example : clock_active overnight friday (dark friday) ≡ (
    windows overnight.days friday.wday 1320 360 (now_min friday)
    || (test overnight.days friday.wday && (ltb 360 1320 && ltb (now_min friday) 360)))
unfolding resolve_minute
clock_active-windows_example =
    clock_active-windows overnight friday (dark friday) 1320 360 (omega arith) (omega arith)
      (omega arith) (omega arith) refl refl

-- It is active, although no window of the schedule holds the minute.
early_active : clock_active overnight friday (dark friday) ≡ true
unfolding clock_active resolve_minute
early_active = refl

early_outside : windows overnight.days friday.wday 1320 360 (now_min friday) ≡ false
early_outside = refl

still_active :
    entry_active overnight minute_later (dark minute_later)
    ≡ entry_active overnight friday (dark friday)
unfolding entry_active clock_active resolve_minute
still_active = refl

tick-again_example :
    (tick dark night_config true minute_later (tick dark night_config true friday init).0).1 ≡ []
tick-again_example = tick-again dark night_config init friday minute_later (λ i l e. still_active)

tick_after_gap_example :
    (tick dark night_config true minute_later (tick dark night_config false friday init).0).1
    ≡ no_time_normal ∷ commands night_config minute_later (dark minute_later) 8
tick_after_gap_example = tick_after_gap dark night_config init friday minute_later
