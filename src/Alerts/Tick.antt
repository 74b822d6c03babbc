-- ===== src/Alerts/Tick.antt =====
-- n2k_alerts_tick(). The calls of `out` are the list of the payloads that are sent.
use signalk_esp_os_8relay.Base.{
  ℕ, zero, suc, ◌+◌, ◌-◌, if◌then◌else◌, Bool, true, false, not, ◌&&◌, ◌||◌, ◌==◌, ltb, leb, List,
  [], ◌∷◌, ◌++◌, Option, none, some,
}
use signalk_esp_os_8relay.Base.Bits.{test}
use signalk_esp_os_8relay.Base.Words.{sub32}
use signalk_esp_os_8relay.Board.{channels}
use signalk_esp_os_8relay.DeviceConfig.{InputAlarm}
use signalk_esp_os_8relay.N2kAlert.{text_max_len, encode, encode_text}
use signalk_esp_os_8relay.Alerts.State.{
  status_period_ms, text_period_ms, clear_repeats, name_none, AlertsCfg, Chan, Alerts, Sent, status,
  text, same_level, id_of, status_of, put,
}

unfoldable pub begin_clear : Chan → Chan
begin_clear c = record c {
  clear_level = c.level;
  clear_occurrence = c.occurrence;
  clear_left = clear_repeats;
  active = false;
  acked = false;
  text_due = false;
  status_due = true;
}

unfoldable pub raise_alert : InputAlarm → Chan → Chan
raise_alert level c = record c {
  active = true;
  level = level;
  occurrence = if c.occurrence == 255 then 1 else c.occurrence + 1;
  acked = false;
  ack_name = name_none;
  text_due = true;
  status_due = true;
}

-- `want` in the first loop of n2k_alerts_tick().
unfoldable pub wants : AlertsCfg → Bool → ℕ → ℕ → Bool
wants cfg inputs_ready input_mask i =
    cfg.enabled
    && cfg.inputs_on
    && inputs_ready
    && not (same_level (cfg.level i) InputAlarm.off)
    && test input_mask i

-- The first two `if`s of the first loop, then the two periods.
unfoldable pub follow : InputAlarm → Bool → Chan → Chan
unfolding begin_clear raise_alert
follow level want c =
    let c1 =
      if c.active && (not want || not (same_level c.level level)) then begin_clear c else c in
    if not c1.active && want then raise_alert level c1 else c1

unfoldable pub mark_due : Bool → Bool → Chan → Chan
mark_due status_period text_period c = record c {
  status_due = c.status_due || (status_period && (c.active || not (c.clear_left == 0)));
  text_due = c.text_due || (text_period && c.active);
}

-- The first loop, and the two times before it.
unfoldable pub update_all : Bool → ℕ → ℕ → Alerts → Alerts
unfolding follow mark_due
update_all inputs_ready input_mask now a =
    let status_period = leb status_period_ms (sub32 now a.status_at) in
    let text_period = leb text_period_ms (sub32 now a.text_at) in
    record a {
      status_at = if status_period then now else a.status_at;
      text_at = if text_period then now else a.text_at;
      chan = λ i.
          if ltb i channels
          then mark_due status_period text_period
              (follow (a.cfg.level i) (wants a.cfg inputs_ready input_mask i) (a.chan i))
          else a.chan i;
    }

-- `!c->text_due && !c->status_due` for none of the first `n` channels: the first that has something
-- due.
unfoldable pub first_due : (ℕ → Chan) → ℕ → Option ℕ
first_due chan zero = none
first_due chan (suc n) =
    let before = first_due chan n in
    elim before [
      | some i ↦ some i
      | none ↦ if (chan n).text_due || (chan n).status_due then some n else none
    ]

-- What the second loop sends for channel `ch = i + 1`, and what it leaves of the channel.
unfoldable pub messages : Alerts → ℕ → List Sent
messages a i =
    let c = a.chan i in
    (if c.text_due
      then text
          (encode_text (id_of a (i + 1) c.level c.occurrence) (a.cfg.message i) [] text_max_len)
        ∷ []
      else [])
    ++ (if c.status_due
        then (if c.clear_left == 0 then [] else status (encode (status_of a (i + 1) true)) ∷ [])
          ++ (if c.active then status (encode (status_of a (i + 1) false)) ∷ [] else [])
        else [])

unfoldable pub after_messages : Chan → Chan
after_messages c = record c {
  text_due = false;
  status_due = false;
  clear_left = if c.status_due then c.clear_left - 1 else c.clear_left;
}

-- The round of the second loop that ends in its `break`, if there is one.
unfoldable pub send_from : Alerts → Option ℕ → Alerts × List Sent
unfolding put messages after_messages
send_from a none = (a, [])
send_from a (some i) = (record a { chan = put i (after_messages (a.chan i)) a.chan }, messages a i)

-- The second loop.
unfoldable pub send_first : Alerts → Alerts × List Sent
unfolding send_from
send_first a = send_from a (first_due a.chan channels)

-- n2k_alerts_tick
unfoldable pub tick : Bool → ℕ → ℕ → Alerts → Alerts × List Sent
tick inputs_ready input_mask now a = send_first (update_all inputs_ready input_mask now a)
