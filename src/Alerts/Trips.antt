-- ===== src/Alerts/Trips.antt =====
-- How often the alert of an input is raised over ticks, saved settings and messages from the bus, and
-- what number it has then.
use signalk_esp_os_8relay.Base.{
  ℕ, zero, suc, ◌+◌, ◌-◌, ◌%◌, ◌<◌, ◌≤◌, if◌then◌else◌, Bool, true, false, not, ◌&&◌, ◌||◌, ◌==◌,
  ltb, List, [], ◌∷◌, Option, none, some, ◌≡◌, ◌≢◌, refl, ap, ◌∙◌, sym, arith, inl, inr, Bool-cases,
}
use signalk_esp_os_8relay.DeviceConfig.{InputAlarm}
use signalk_esp_os_8relay.N2kAlert.{Response, decode_response}
use signalk_esp_os_8relay.Alerts.State.{AlertsCfg, Alerts, Chan, same_level, set_config, put}
use signalk_esp_os_8relay.Alerts.Tick.{
  wants, follow, begin_clear, raise_alert, mark_due, update_all, first_due, after_messages,
  send_from, send_first, tick,
}
use signalk_esp_os_8relay.Alerts.Response.{accepts, acknowledge, on_response}
use signalk_esp_os_8relay.Alerts.Follow.{same_level_refl}

-- What can happen to the alerts.
pub data Event : Type 0 where
  time : (ready : Bool) (mask now : ℕ) → Event
  settings : AlertsCfg → Event
  message : (payload : List ℕ) → Event

unfoldable pub step : Event → Alerts → Alerts
step (time ready mask now) a = (tick ready mask now a).0
step (settings cfg) a = set_config cfg a
step (message payload) a = (on_response a payload).0

unfoldable pub run : List Event → Alerts → Alerts
unfolding step
run [] a = a
run (e ∷ es) a = run es (step e a)

-- A new alert has come up: there was none, or one of another severity.
unfoldable pub new_alert : Chan → Chan → Bool
new_alert before after =
    after.active && (not before.active || not (same_level before.level after.level))

-- How often that happens to channel `i`.
unfoldable pub trips : ℕ → List Event → Alerts → ℕ
unfolding new_alert
trips i [] a = 0
trips i (e ∷ es) a =
    let rest = trips i es (step e a) in
    if new_alert (a.chan i) ((step e a).chan i) then suc rest else rest

-- The numbers of alerts go from 1 to 255 and around.
following : ℕ → ℕ
following o = if o == 255 then 1 else o + 1

nth_after : ℕ → ℕ → ℕ
nth_after zero o = o
nth_after (suc n) o = nth_after n (following o)

nth_after-around : (n o : ℕ) → 1 ≤ o → o ≤ 255 → nth_after n o ≡ (o - 1 + n) % 255 + 1
unfolding nth_after following
nth_after-around zero o low high = omega arith
nth_after-around (suc n) o low high = elim (Bool-cases (o == 255)) [
  | inl e ↦ simp e (nth_after-around n 1 (omega arith) (omega arith) ∙ ground (arith, e))
  | inr e ↦
      simp e
        (nth_after-around n (o + 1) (omega arith) (ground (arith, e, high)) ∙ ground (arith, e))
]

nth_after-other : (n o : ℕ) → 1 ≤ n → n ≤ 254 → o < 256 → nth_after n o ≢ o
unfolding nth_after following
nth_after-other n zero few most h e = case n few most e
  where
    case : (n : ℕ) → 1 ≤ n → n ≤ 254 → nth_after n 0 ≢ 0
    case zero low high e = omega arith
    case (suc n) low high e = omega (arith, nth_after-around n 1 (omega arith) (omega arith), e)
nth_after-other n (suc o) few most h e =
    omega (arith, nth_after-around n (suc o) (omega arith) (omega arith), e)

-- The alert is the same, whatever is due.
record IsAlike (c d : Chan) : Type 0 where
  active : d.active ≡ c.active
  level : d.level ≡ c.level
  occurrence : d.occurrence ≡ c.occurrence

-- What a step makes of the number.
record IsCounted (c d : Chan) : Type 0 where
  occurrence : d.occurrence ≡ (if new_alert c d then following c.occurrence else c.occurrence)

IsAlike-IsCounted : (c d : Chan) → IsAlike c d → IsCounted c d
unfolding new_alert
IsAlike-IsCounted c d like = record {
  occurrence =
      rw (like.active, like.level, like.occurrence, same_level_refl c.level) (counted c.active);
}
  where
    counted :
        (b : Bool)
        → c.occurrence ≡ (if b && (not b || false) then following c.occurrence else c.occurrence)
    counted true = refl
    counted false = refl

IsCounted-IsAlike : (c d d' : Chan) → IsCounted c d → IsAlike d d' → IsCounted c d'
unfolding new_alert
IsCounted-IsAlike c d d' n like = record {
  occurrence = rw (like.active, like.level, like.occurrence) n.occurrence;
}

follow-IsCounted : (level : InputAlarm) (want : Bool) (c : Chan) → IsCounted c (follow level want c)
unfolding follow begin_clear raise_alert new_alert following
follow-IsCounted level want c = record { occurrence = ground (arith, same_level_refl c.level) }

mark_due-IsAlike : (s t : Bool) (c : Chan) → IsAlike c (mark_due s t c)
unfolding mark_due
mark_due-IsAlike s t c = record { active = refl; level = refl; occurrence = refl }

put-IsAlike :
    (k i : ℕ) (d : Chan) (chan : ℕ → Chan) → IsAlike (chan k) d → IsAlike (chan i) (put k d chan i)
unfolding put
put-IsAlike k i d chan like = elim (Bool-cases (k == i)) [
  | inl e ↦ let same : k ≡ i = ground (arith, e) in simp e (rw (← same) like)
  | inr e ↦ simp e (record { active = refl; level = refl; occurrence = refl })
]

send_from-IsAlike :
    (a : Alerts) (o : Option ℕ) (i : ℕ) → IsAlike (a.chan i) ((send_from a o).0.chan i)
unfolding send_from after_messages
send_from-IsAlike a none i = record { active = refl; level = refl; occurrence = refl }
send_from-IsAlike a (some k) i =
    put-IsAlike k i (after_messages (a.chan k)) a.chan
      (record { active = refl; level = refl; occurrence = refl })

update_all-IsCounted :
    (ready : Bool) (mask now : ℕ) (a : Alerts) (i : ℕ)
    → i < 8
    → IsCounted (a.chan i) ((update_all ready mask now a).chan i)
unfolding update_all
update_all-IsCounted ready mask now a i h =
    let inside : ltb i 8 ≡ true = ground arith in
    let c = follow (a.cfg.level i) (wants a.cfg ready mask i) (a.chan i) in
    simp inside (
      IsCounted-IsAlike (a.chan i) c _
        (follow-IsCounted (a.cfg.level i) (wants a.cfg ready mask i) (a.chan i))
        (mark_due-IsAlike _ _ c))

tick-IsCounted :
    (ready : Bool) (mask now : ℕ) (a : Alerts) (i : ℕ)
    → i < 8
    → IsCounted (a.chan i) ((tick ready mask now a).0.chan i)
unfolding tick send_first
tick-IsCounted ready mask now a i h =
    let next = update_all ready mask now a in
    IsCounted-IsAlike (a.chan i) (next.chan i) _ (update_all-IsCounted ready mask now a i h)
      (send_from-IsAlike next (first_due next.chan 8) i)

set_config-IsAlike :
    (cfg : AlertsCfg) (a : Alerts) (i : ℕ) → IsAlike (a.chan i) ((set_config cfg a).chan i)
unfolding set_config
set_config-IsAlike cfg a i = record {
  active = ground arith;
  level = ground arith;
  occurrence = ground arith;
}

acknowledge-IsAlike :
    (a : Alerts) (r : Response) (i : ℕ) → IsAlike (a.chan i) ((acknowledge a r).0.chan i)
unfolding acknowledge
acknowledge-IsAlike a r i = elim (Bool-cases (accepts a r)) [
  | inl e ↦ simp e (
      put-IsAlike (r.id.id - 1) i
        (record (a.chan (r.id.id - 1)) { acked = true; ack_name = r.ack_name; status_due = true })
        a.chan (record { active = refl; level = refl; occurrence = refl }))
  | inr e ↦ simp e (record { active = refl; level = refl; occurrence = refl })
]

on_response-IsAlike :
    (a : Alerts) (payload : List ℕ) (i : ℕ) → IsAlike (a.chan i) ((on_response a payload).0.chan i)
unfolding on_response
on_response-IsAlike a payload i =
    elim (decode_response payload)
      as (λ o. IsAlike (a.chan i) (
        (elim o as (λ p. Alerts × Bool) [ none ↦ (a, false) | some r ↦ acknowledge a r ]).0.chan
          i)) [
            | none ↦ record { active = refl; level = refl; occurrence = refl }
            | some r ↦ acknowledge-IsAlike a r i
          ]

step-IsCounted : (e : Event) (a : Alerts) (i : ℕ) → i < 8 → IsCounted (a.chan i) ((step e a).chan i)
unfolding step
step-IsCounted (time ready mask now) a i h = tick-IsCounted ready mask now a i h
step-IsCounted (settings cfg) a i h = IsAlike-IsCounted _ _ (set_config-IsAlike cfg a i)
step-IsCounted (message payload) a i h = IsAlike-IsCounted _ _ (on_response-IsAlike a payload i)

nth_after-when :
    (b : Bool) (n o : ℕ)
    → nth_after n (if b then following o else o) ≡ nth_after (if b then suc n else n) o
unfolding nth_after
nth_after-when true n o = refl
nth_after-when false n o = refl

run-occurrence :
    (es : List Event) (a : Alerts) (i : ℕ)
    → i < 8
    → ((run es a).chan i).occurrence ≡ nth_after (trips i es a) (a.chan i).occurrence
unfolding run trips nth_after
run-occurrence [] a i h = refl
run-occurrence (e ∷ es) a i h =
    run-occurrence es (step e a) i h
    ∙ (ap (nth_after (trips i es (step e a))) (step-IsCounted e a i h).occurrence
        ∙ nth_after-when (new_alert (a.chan i) ((step e a).chan i)) (trips i es (step e a))
            (a.chan i).occurrence)

-- After 1 to 254 new alerts the number is another one.
pub run-other :
    (es : List Event) (a : Alerts) (i : ℕ)
    → i < 8
    → (a.chan i).occurrence < 256
    → 1 ≤ trips i es a
    → trips i es a ≤ 254
    → ((run es a).chan i).occurrence ≢ (a.chan i).occurrence
run-other es a i h small few most e =
    nth_after-other (trips i es a) (a.chan i).occurrence few most small
      (sym (run-occurrence es a i h) ∙ e)
