-- ===== src/Tests/ConfigExamples.antt =====
-- The theorems on the settings at stored values.
use signalk_esp_os_8relay.Base.{
  ◌≡◌, arith, ℕ, ◌⊎◌, ◌==◌, if◌then◌else◌, [], ◌∷◌, false, refl, pos, negsuc, same_text,
}
use signalk_esp_os_8relay.DeviceConfig.{ScheduleMode, TimeKind}
use signalk_esp_os_8relay.DeviceConfig.Schedules.{
  Stored, parse_schedule_time, load_entry, load_schedules,
}
use signalk_esp_os_8relay.DeviceConfig.Usable.{IsUsable}
use signalk_esp_os_8relay.DeviceConfig.Conflicts.{load_schedules-IsUsable}
use signalk_esp_os_8relay.DeviceConfig.{Config}
use signalk_esp_os_8relay.DeviceConfig.Interlock.{derive_interlocks, derive_interlocks-WellPaired}
use signalk_esp_os_8relay.Relay.Pairs.{WellPaired}
use package.signalk_esp_os_8relay.Tests.Bench.{plain_config, paired_relays}

-- As stored: relays 1 and 2, and 3 and 4, name each other.
abbrev stored : Config
stored = record plain_config { relays = paired_relays }

derive_interlocks-WellPaired_example : WellPaired (derive_interlocks stored)
derive_interlocks-WellPaired_example = derive_interlocks-WellPaired stored

-- Schedule 1 switches relay 3 on at 07:30 and off 45 minutes before sunset; the others are empty.
abbrev morning : Stored
morning = record {
  relay = pos 3;
  mode = b'c' ∷ b'l' ∷ b'o' ∷ b'c' ∷ b'k' ∷ [];
  days = pos 127;
  on = b'0' ∷ b'7' ∷ b':' ∷ b'3' ∷ b'0' ∷ [];
  off = b's' ∷ b'u' ∷ b'n' ∷ b's' ∷ b'e' ∷ b't' ∷ b'-' ∷ b'4' ∷ b'5' ∷ b'm' ∷ [];
}

abbrev stored_schedules : ℕ → Stored
stored_schedules i = if i == 0 then morning else record morning { relay = pos 0 }

morning_loaded : load_entry morning ≡ record {
  relay = 3;
  mode = ScheduleMode.clock;
  on = record { kind = TimeKind.by_clock; minute_of_day = 450; offset_min = pos 0 };
  off = record { kind = TimeKind.sunset; minute_of_day = 0; offset_min = negsuc 44 };
  on_min = 0;
  period_min = 0;
  days = 127;
}
unfolding load_entry same_text parse_schedule_time
morning_loaded = refl

load_schedules-IsUsable_example :
    (((load_schedules stored_schedules).0 0).relay ≡ 0)
    ⊎ (IsUsable ((load_schedules stored_schedules).0 0)
        × ((((load_schedules stored_schedules).0 1).relay
              == ((load_schedules stored_schedules).0 0).relay)
            ≡ false))
load_schedules-IsUsable_example =
    load_schedules-IsUsable stored_schedules 0 1 (omega arith) (omega arith) refl
