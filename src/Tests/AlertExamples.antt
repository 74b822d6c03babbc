-- ===== src/Tests/AlertExamples.antt =====
-- The theorems on n2k_alerts.c and n2k_alert_pgn.c at concrete alerts.
use signalk_esp_os_8relay.Base.{
  ◌↔◌, ℕ, zero, suc, ◌-◌, ◌<◌, ◌≤◌, ◌==◌, if◌then◌else◌, true, false, List, [], ◌∷◌, ◌++◌, length,
  ◌≡◌, refl, arith, ◌⊎◌, inl, inr,
}
use signalk_esp_os_8relay.DeviceConfig.{InputAlarm}
use signalk_esp_os_8relay.N2kAlert.{AlertId, encode_header, byte_at, decode_header, encode_text}
use signalk_esp_os_8relay.N2kAlert.Header.{decode_header-encode}
use signalk_esp_os_8relay.N2kAlert.Text.{encode_text-length}
use signalk_esp_os_8relay.Alerts.State.{AlertsCfg, Alerts, Chan, same_level, id_of, init, put}
use signalk_esp_os_8relay.Alerts.Tick.{
  wants, raise_alert, begin_clear, tick, update_all, send_first, send_from, first_due, follow,
  mark_due, after_messages,
}
use signalk_esp_os_8relay.Alerts.Response.{on_response}
use signalk_esp_os_8relay.Alerts.Follow.{
  HasFollowed, AllSay, due_count, tick-active, tick-due_count,
}
use signalk_esp_os_8relay.Alerts.Trips.{Event, time, run, step, trips, new_alert}
use signalk_esp_os_8relay.Alerts.Ack.{reply, on_response-current, on_response-late}

abbrev bilge : AlertId
bilge = record {
  alert_type = 2;
  category = 1;
  system = 0;
  subsystem = 0;
  id = 300;
  source_name = 13835058055282163712;
  source_instance = 4;
  index = 3;
  occurrence = 7;
}

decode_header-encode_example : decode_header (byte_at (encode_header bilge ++ (1 ∷ 2 ∷ []))) ≡ bilge
decode_header-encode_example =
    decode_header-encode bilge
      (record {
        alert_type = omega arith;
        category = omega arith;
        id = omega arith;
        source_name = omega arith;
      })
      (1 ∷ 2 ∷ [])

-- "Bilge high", with a degree sign after it.
abbrev description : List ℕ
description = b'B' ∷ b'i' ∷ b'l' ∷ b'g' ∷ b'e' ∷ 194 ∷ 176 ∷ []

encode_text-length_example :
    (length (encode_text bilge description [] 25) ≤ 25)
    × (length (encode_text bilge description [] 25) ≤ 223)
    × ((25 < 21) ⊎ (21 ≤ length (encode_text bilge description [] 25)))
encode_text-length_example = encode_text-length bilge description [] 25

abbrev cfg : AlertsCfg
cfg = record {
  enabled = true;
  inputs_on = true;
  level = λ i. if i == 2 then InputAlarm.alarm else InputAlarm.warn;
  message = λ i. description;
}

abbrev started : Alerts
started = init cfg 4 13835058055282163712 100

-- The third input has tripped, and its seventh alert is up.
abbrev tripped : Chan
tripped = record {
  active = true;
  level = InputAlarm.alarm;
  occurrence = 7;
  acked = false;
  ack_name = 0;
  text_due = true;
  status_due = true;
  clear_left = 0;
  clear_level = InputAlarm.off;
  clear_occurrence = 0;
}

abbrev alerts : Alerts
alerts = record {
  cfg = cfg;
  bank = 4;
  source_name = 13835058055282163712;
  status_at = 100;
  text_at = 100;
  chan = λ i.
      if i == 2
      then tripped
      else record tripped { active = false; text_due = false; status_due = false };
}

tick-active_example :
    ((((tick true 5 110 started).0.chan 2).active ≡ true) ↔ AllSay cfg true 5 2)
    × ((((tick true 5 110 started).0.chan 2).active ≡ false)
        ⊎ (((tick true 5 110 started).0.chan 2).level ≡ InputAlarm.alarm))
unfolding init
tick-active_example = tick-active true 5 110 started 2 (omega arith)

alerts-HasFollowed : HasFollowed true 4 alerts
unfolding HasFollowed wants same_level
alerts-HasFollowed zero l = (refl, inl refl)
alerts-HasFollowed (suc zero) l = (refl, inl refl)
alerts-HasFollowed (suc (suc zero)) l = (refl, inr refl)
alerts-HasFollowed (suc (suc (suc zero))) l = (refl, inl refl)
alerts-HasFollowed (suc (suc (suc (suc zero)))) l = (refl, inl refl)
alerts-HasFollowed (suc (suc (suc (suc (suc zero))))) l = (refl, inl refl)
alerts-HasFollowed (suc (suc (suc (suc (suc (suc zero)))))) l = (refl, inl refl)
alerts-HasFollowed (suc (suc (suc (suc (suc (suc (suc zero))))))) l = (refl, inl refl)
alerts-HasFollowed (suc (suc (suc (suc (suc (suc (suc (suc i)))))))) l = absurd (omega arith)

tick-due_count_example : due_count (tick true 4 110 alerts).0.chan 8 ≡ due_count alerts.chan 8 - 1
tick-due_count_example =
    tick-due_count true 4 110 alerts alerts-HasFollowed (omega arith) (omega arith)

on_response-current_example :
    on_response alerts (reply (id_of alerts 3 InputAlarm.alarm 7) 99 0) ≡ (
      record alerts {
        chan =
            put 2 (record tripped { acked = true; ack_name = 99; status_due = true }) alerts.chan;
      },
      true,
    )
on_response-current_example =
    on_response-current alerts 3 99 (omega arith) (omega arith) (omega arith) (omega arith) refl
      refl

-- The third input goes off and trips again.
abbrev off_and_on : List Event
off_and_on = time true 0 110 ∷ time true 4 130 ∷ []

one_trip : trips 2 off_and_on alerts ≡ 1
unfolding trips step new_alert tick update_all send_first send_from first_due follow mark_due wants
    begin_clear raise_alert after_messages put same_level
one_trip = refl

on_response-late_example :
    on_response (run off_and_on alerts) (reply (id_of alerts 3 InputAlarm.alarm 7) 99 0)
    ≡ (run off_and_on alerts, false)
on_response-late_example =
    on_response-late alerts 3 99 (omega arith) (omega arith) (omega arith) (omega arith) off_and_on
      (omega arith) (omega (arith, one_trip)) (omega (arith, one_trip))
