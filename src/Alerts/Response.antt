-- ===== src/Alerts/Response.antt =====
-- n2k_alerts_on_response()
use signalk_esp_os_8relay.Base.{
  ℕ, ◌-◌, if◌then◌else◌, Bool, true, false, not, ◌&&◌, ◌==◌, leb, List, none, some,
}
use signalk_esp_os_8relay.Board.{channels}
use signalk_esp_os_8relay.N2kAlert.{Response, decode_response}
use signalk_esp_os_8relay.Alerts.State.{Chan, Alerts, type_of, put}

-- The checks of n2k_alerts_on_response(), for the channel that the response names.
unfoldable pub is_ours : Alerts → Response → Bool
is_ours a r =
    (r.id.source_name == a.source_name)
    && (r.id.source_instance == a.bank)
    && leb 1 r.id.id
    && leb r.id.id channels

unfoldable pub is_current : Chan → Response → Bool
is_current c r =
    c.active && (r.id.alert_type == type_of c.level) && (r.id.occurrence == c.occurrence)

unfoldable pub accepts : Alerts → Response → Bool
unfolding is_ours is_current
accepts a r =
    is_ours a r
    && is_current (a.chan (r.id.id - 1)) r
    && (r.command == 0)
    && not (a.chan (r.id.id - 1)).acked

unfoldable pub acknowledge : Alerts → Response → Alerts × Bool
acknowledge a r =
    if accepts a r
    then (
      record a {
        chan =
            put (r.id.id - 1)
              (record (a.chan (r.id.id - 1)) {
                acked = true;
                ack_name = r.ack_name;
                status_due = true;
              })
              a.chan;
      },
      true,
    )
    else (a, false)

-- n2k_alerts_on_response
unfoldable pub on_response : Alerts → List ℕ → Alerts × Bool
unfolding acknowledge
on_response a payload = elim (decode_response payload) [
  | none ↦ (a, false)
  | some r ↦ acknowledge a r
]
