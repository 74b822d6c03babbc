-- ===== src/Schedule.antt =====
-- components/schedule/src/schedule_eval.c: which schedules are active, and the commands at their
-- transitions. The times of the sun (sun.c, in floating point) are an argument: a function of the
-- local day, the position being fixed. `local` comes from the espOS library.
pub mod Active
pub mod Edges
pub mod Windows
use signalk_esp_os_8relay.Base.{
  ℕ, zero, suc, ◌+◌, ◌*◌, ◌%◌, if◌then◌else◌, Bool, true, false, not, ◌&&◌, ◌||◌, ◌==◌, ltb, leb,
  xor, List, [], ◌∷◌, ◌++◌, ℤ, pos, ◌+ℤ◌, scale, quot, rem, ltb_ℤ, leb_ℤ,
}
use signalk_esp_os_8relay.Base.Bits.{test}
use signalk_esp_os_8relay.DeviceConfig.{
  Config, ScheduleCfg, ScheduleTime, TimeKind, by_clock, sunrise, sunset, ScheduleMode, max_entries,
}

-- sun_day_kind_t
pub data SunKind : Type 0 where
  transition always_up always_down : SunKind

-- sun_times_t
pub record Sun : Type 0 where
  pub kind : SunKind
  pub sunrise_unix_ms : ℤ
  pub sunset_unix_ms : ℤ

-- What is read of espos_time_parts_t; sun_times() reads the date.
pub record Local : Type 0 where
  pub year : ℕ
  pub month : ℕ
  pub day : ℕ
  pub hour : ℕ
  pub minute : ℕ
  pub wday : ℕ
  pub utc_offset_s : ℤ

-- entry_state_t
pub record Entry : Type 0 where
  pub valid : Bool
  pub active : Bool
  pub relay : ℕ

-- `s`, without the function pointer.
pub record Evaluator : Type 0 where
  pub entries : ℕ → Entry
  pub was_time_valid : Bool

-- The calls of espos_health_report() and of `s.io.set_relay`.
pub data Output : Type 0 where
  no_time_warn no_time_normal : Output
  set_relay : (relay : ℕ) → (on : Bool) → Output

abbrev pub init : Evaluator
init = record {
  entries = λ i. record { valid = false; active = false; relay = 0 };
  was_time_valid = false;
}

unfoldable pub wrap_minute : ℤ → ℤ
wrap_minute m = let r = rem m 1440 in if ltb_ℤ r (pos 0) then r +ℤ pos 1440 else r

-- The branch of a day without a sunrise or sunset.
unfoldable pub polar_minute : TimeKind → SunKind → ℤ
polar_minute sunset always_down = pos 0
polar_minute sunrise always_up = pos 0
polar_minute kind day = pos 1440

-- The minute of the local day of an instant.
unfoldable pub minute_of : ℤ → ℤ → ℤ
minute_of instant_ms utc_offset_s =
    let local_ms = instant_ms +ℤ scale 1000 utc_offset_s in
    let minute = rem (quot local_ms 60000) 1440 in
    if ltb_ℤ minute (pos 0) then minute +ℤ pos 1440 else minute

unfoldable pub sun_minute : ScheduleTime → Local → Sun → ℤ → ℤ
unfolding minute_of wrap_minute polar_minute
sun_minute t local sun instant_ms = elim sun.kind [
  | transition ↦ wrap_minute (minute_of instant_ms local.utc_offset_s +ℤ t.offset_min)
  | always_up ↦ polar_minute t.kind always_up
  | always_down ↦ polar_minute t.kind always_down
]

unfoldable pub resolve_minute : ScheduleTime → Local → Sun → ℤ
resolve_minute t local sun = elim t.kind [
  | by_clock ↦ pos t.minute_of_day
  | sunrise ↦ sun_minute t local sun sun.sunrise_unix_ms
  | sunset ↦ sun_minute t local sun sun.sunset_unix_ms
]

-- day_in_mask
unfoldable pub day_in_mask : ℕ → ℕ → Bool
day_in_mask mask wday = test mask wday

abbrev pub now_min : Local → ℕ
now_min local = local.hour * 60 + local.minute

-- clock_active(), the two boundaries resolved.
unfoldable pub window_active : ℕ → ℕ → ℤ → ℤ → ℕ → Bool
unfolding day_in_mask
window_active days wday on_min off_min now =
    let in_order = leb_ℤ on_min off_min in
    let started = leb_ℤ on_min (pos now) in
    let before_end = ltb_ℤ (pos now) off_min in
    let active =
      if day_in_mask days wday
      then (if in_order then started && before_end else started || before_end)
      else false in
    if not active && not in_order && day_in_mask days ((wday + 6) % 7) then before_end else active

unfoldable pub clock_active : ScheduleCfg → Local → Sun → Bool
unfolding window_active
clock_active sc local sun_today =
    window_active sc.days local.wday (resolve_minute sc.on local sun_today)
      (resolve_minute sc.off local sun_today) (now_min local)

unfoldable pub repeat_active : ScheduleCfg → Local → Bool
unfolding day_in_mask
repeat_active sc local =
    if not (day_in_mask sc.days local.wday)
    then false
    else ltb (now_min local % sc.period_min) sc.on_min

-- `active` of the last loop.
unfoldable pub entry_active : ScheduleCfg → Local → Sun → Bool
entry_active sc local sun = elim sc.mode [
  | ScheduleMode.repeat ↦ repeat_active sc local
  | ScheduleMode.clock ↦ clock_active sc local sun
]

abbrev is_by_clock : TimeKind → Bool
is_by_clock by_clock = true
is_by_clock sunrise = false
is_by_clock sunset = false

-- Whether an entry needs the sun.
unfoldable pub entry_needs_sun : ScheduleCfg → Bool
entry_needs_sun sc = elim sc.mode [
  | ScheduleMode.repeat ↦ false
  | ScheduleMode.clock ↦
      not (sc.relay == 0) && (not (is_by_clock sc.on.kind) || not (is_by_clock sc.off.kind))
]

-- `need_sun`, of the first `n` entries.
unfoldable pub need_sun : Config → ℕ → Bool
unfolding entry_needs_sun
need_sun cfg zero = false
need_sun cfg (suc i) = need_sun cfg i || entry_needs_sun (cfg.schedules i)

-- `sun_times_t sun_today = {0}`
abbrev pub no_sun : Sun
no_sun = record { kind = transition; sunrise_unix_ms = pos 0; sunset_unix_ms = pos 0 }

-- One round of the last loop.
unfoldable pub entry_step : ScheduleCfg → Local → Sun → Entry → Entry × List Output
unfolding entry_active
entry_step sc local sun e =
    if sc.relay == 0
    then (record e { valid = false }, [])
    else let active = entry_active sc local sun in
      if not e.valid || xor active e.active || not (sc.relay == e.relay)
      then (
        record { valid = true; active = active; relay = sc.relay },
        set_relay sc.relay active ∷ [],
      )
      else (e, [])

-- What the first `n` rounds send.
unfoldable pub sent : Config → Local → Sun → (ℕ → Entry) → ℕ → List Output
unfolding entry_step
sent cfg local sun entries zero = []
sent cfg local sun entries (suc i) =
    sent cfg local sun entries i ++ (entry_step (cfg.schedules i) local sun (entries i)).1

-- The last loop, over all entries.
unfoldable pub evaluate : Config → Local → Sun → Evaluator → Evaluator × List Output
unfolding entry_step sent
evaluate cfg local sun s = (
  record s {
    entries = λ i.
        if ltb i max_entries
        then (entry_step (cfg.schedules i) local sun (s.entries i)).0
        else s.entries i;
  },
  sent cfg local sun s.entries max_entries,
)

-- The branch `!time_valid`.
unfoldable pub without_time : Evaluator → Evaluator × List Output
without_time s = (
  record {
    entries =
        λ i. if ltb i max_entries then record (s.entries i) { valid = false } else s.entries i;
    was_time_valid = false;
  },
  no_time_warn ∷ [],
)

unfoldable pub tick : (Local → Sun) → Config → Bool → Local → Evaluator → Evaluator × List Output
tick sun_times cfg time_valid local s =
    if not time_valid
    then without_time s
    else (let sun_today = if need_sun cfg max_entries then sun_times local else no_sun in
        let (s', out) = evaluate cfg local sun_today (record s { was_time_valid = true }) in
        (s', (if s.was_time_valid then [] else no_time_normal ∷ []) ++ out))
