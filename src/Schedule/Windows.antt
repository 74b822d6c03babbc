-- ===== src/Schedule/Windows.antt =====
-- clock_active() against windows on the time line, and the range of the minutes it compares.
use signalk_esp_os_8relay.Base.{
  ℕ, suc, ◌-◌, ◌+◌, ◌%◌, ◌<◌, ◌≤◌, if◌then◌else◌, Bool, ◌&&◌, ◌||◌, ltb, leb, ◌≡◌, ◌≢◌, ◌⊎◌, inl,
  inr, refl, ap, ◌∙◌, arith, ℤ, pos, negsuc, ◌+ℤ◌, rem,
}
use signalk_esp_os_8relay.Base.Bits.{test}
use signalk_esp_os_8relay.DeviceConfig.{
  ScheduleCfg, ScheduleTime, TimeKind, by_clock, sunrise, sunset,
}
use package.signalk_esp_os_8relay.Schedule.{
  SunKind, transition, always_up, always_down, Sun, Local, wrap_minute, polar_minute, minute_of,
  sun_minute, resolve_minute, now_min, window_active, clock_active,
}

-- A minute of the day, or 1440 on a day without a sunrise or sunset.
abbrev pub Minute : SunKind → ℤ → Type 0
Minute kind m = (n : ℕ) × (m ≡ pos n) × ((n < 1440) ⊎ ((n ≡ 1440) × (kind ≢ transition)))

wrap_minute-range : (m : ℤ) → (n : ℕ) × (wrap_minute m ≡ pos n) × (n < 1440)
unfolding wrap_minute rem ◌+ℤ◌
wrap_minute-range (pos k) = (k % 1440, ground arith, omega arith)
wrap_minute-range (negsuc k) = ((1440 - suc k % 1440) % 1440, ground arith, omega arith)

polar_minute-range :
    (kind : TimeKind) (day : SunKind) → day ≢ transition → Minute day (polar_minute kind day)
unfolding polar_minute
polar_minute-range by_clock transition h = (1440, refl, inr (refl, h))
polar_minute-range by_clock always_up h = (1440, refl, inr (refl, h))
polar_minute-range by_clock always_down h = (1440, refl, inr (refl, h))
polar_minute-range sunrise transition h = (1440, refl, inr (refl, h))
polar_minute-range sunrise always_up h = (0, refl, inl (omega arith))
polar_minute-range sunrise always_down h = (1440, refl, inr (refl, h))
polar_minute-range sunset transition h = (1440, refl, inr (refl, h))
polar_minute-range sunset always_up h = (1440, refl, inr (refl, h))
polar_minute-range sunset always_down h = (0, refl, inl (omega arith))

-- An offset on a day with a sunrise and a sunset.
sun_minute-range :
    (t : ScheduleTime) (local : Local) (sun : Sun) (instant_ms : ℤ)
    → Minute sun.kind (sun_minute t local sun instant_ms)
unfolding sun_minute
sun_minute-range t local sun instant_ms =
    elim sun.kind
      as (λ k. Minute k (elim k [
        | transition ↦ wrap_minute (minute_of instant_ms local.utc_offset_s +ℤ t.offset_min)
        | always_up ↦ polar_minute t.kind always_up
        | always_down ↦ polar_minute t.kind always_down
      ])) [
        | transition ↦
            let w = wrap_minute-range (minute_of instant_ms local.utc_offset_s +ℤ t.offset_min) in
            (w.0, w.1, inl w.2)
        | always_up ↦ polar_minute-range t.kind always_up (λ e. cc)
        | always_down ↦ polar_minute-range t.kind always_down (λ e. cc)
      ]

-- The window that starts on a day, in minutes of that day: it ends on the next day where the off time
-- is before the on time.
abbrev pub in_window : ℕ → ℕ → ℕ → Bool
in_window on off now = leb on now && ltb now (if leb on off then off else off + 1440)

abbrev pub windows : ℕ → ℕ → ℕ → ℕ → ℕ → Bool
windows days wday on off now =
    (test days wday && in_window on off now)
    || (test days ((wday + 6) % 7) && in_window on off (now + 1440))

window_active_lem :
    (days wday on off now : ℕ)
    → on ≤ 1440
    → off ≤ 1440
    → now < 1440
    → window_active days wday (pos on) (pos off) now
      ≡ (windows days wday on off now || (test days wday && (ltb off on && ltb now off)))
unfolding window_active
window_active_lem days wday on off now h k l = ground arith

-- The minute that an on or off time stands for is never negative and is less than 1440, whatever
-- the offset, the time zone and the instant of the sun, if a clock time is less than 1440; it can
-- be 1440 only on a day without a sunrise or sunset.
pub resolve_minute-range :
    (t : ScheduleTime) (local : Local) (sun : Sun)
    → t.minute_of_day < 1440
    → Minute sun.kind (resolve_minute t local sun)
unfolding resolve_minute
resolve_minute-range t local sun h =
    elim t.kind
      as (λ k. Minute sun.kind (elim k [
        | by_clock ↦ pos t.minute_of_day
        | sunrise ↦ sun_minute t local sun sun.sunrise_unix_ms
        | sunset ↦ sun_minute t local sun sun.sunset_unix_ms
      ])) [
        | by_clock ↦ (t.minute_of_day, refl, inl h)
        | sunrise ↦ sun_minute-range t local sun sun.sunrise_unix_ms
        | sunset ↦ sun_minute-range t local sun sun.sunset_unix_ms
      ]

-- For resolved on and off minutes of at most 1440, an entry in clock mode is active exactly in the
-- windows that start on its days, a window with the off time before the on time running into the
-- next day, and besides, if the off time is before the on time, on its days before the off time,
-- whether or not a window started on the day before.
pub clock_active-windows :
    (sc : ScheduleCfg) (local : Local) (sun : Sun) (on off : ℕ)
    → local.hour < 24
    → local.minute < 60
    → on ≤ 1440
    → off ≤ 1440
    → resolve_minute sc.on local sun ≡ pos on
    → resolve_minute sc.off local sun ≡ pos off
    → clock_active sc local sun ≡ (
        windows sc.days local.wday on off (now_min local)
        || (test sc.days local.wday && (ltb off on && ltb (now_min local) off)))
unfolding clock_active
clock_active-windows sc local sun on off hour minute h k e d =
    ap (λ m. window_active sc.days local.wday m (resolve_minute sc.off local sun) (now_min local)) e
    ∙ (ap (λ m. window_active sc.days local.wday (pos on) m (now_min local)) d
        ∙ window_active_lem sc.days local.wday on off (now_min local) h k (omega arith))
