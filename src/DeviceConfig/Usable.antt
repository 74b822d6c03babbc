-- ===== src/DeviceConfig/Usable.antt =====
-- The schedules that are in use after device_config_load() are sound, and each has its relay for
-- itself.
use signalk_esp_os_8relay.Base.{
  after_word, ℕ, ◌<◌, ◌≤◌, ◌≡◌, ◌⊎◌, inl, inr, refl, ◌∙◌, arith, Bool-cases, Bool, true, false,
  ◌==◌, List, [], ◌∷◌, Option, none, some, ℤ, pos_part, neg_part,
}
use package.signalk_esp_os_8relay.DeviceConfig.{
  ScheduleMode, clock, repeat, TimeKind, ScheduleTime, ScheduleCfg, sunrise, sunset,
}
use package.signalk_esp_os_8relay.DeviceConfig.Schedules.{
  parse_hhmm, parse_offset, signed, parse_offset_suffix, sunrise_word, sunset_word, take_offset,
  take_minute, parse_after, parse_schedule_time, parse_minutes, Stored, no_time, entry_base,
  take_period, take_repeat, parse_entry, load_entry,
}

-- A time of the day, and an offset of less than a day.
pub record IsTime (t : ScheduleTime) : Type 0 where
  pub minute : t.minute_of_day < 1440
  pub later : pos_part t.offset_min < 1440
  pub earlier : neg_part t.offset_min < 1440

parse_hhmm-bound : (s : List ℕ) (v : ℕ) → parse_hhmm s ≡ some v → v < 1440
unfolding parse_hhmm
parse_hhmm-bound s v h = ground (arith, h)

parse_offset-bound : (s : List ℕ) (v : ℕ) → parse_offset s ≡ some v → v < 1440
unfolding parse_offset
parse_offset-bound s v h = ground (arith, h)

parse_minutes-bound : (s : List ℕ) (v : ℕ) → parse_minutes s ≡ some v → (1 ≤ v) × (v < 1440)
unfolding parse_minutes
parse_minutes-bound s v h = ground (arith, h)

-- An offset of less than a day either way, if there is one.
abbrev IsOffset : Option ℤ → Type 0
IsOffset none = Unit
IsOffset (some z) = (pos_part z < 1440) × (neg_part z < 1440)

signed-IsOffset :
    (negative : Bool) (o : Option ℕ)
    → ((v : ℕ) → o ≡ some v → v < 1440)
    → IsOffset (signed negative o)
unfolding signed
signed-IsOffset negative none h = tt
signed-IsOffset false (some v) h = let l = h v refl in ground (arith, l)
signed-IsOffset true (some v) h = let l = h v refl in ground (arith, l)

parse_offset_suffix-IsOffset : (s : List ℕ) → IsOffset (parse_offset_suffix s)
unfolding parse_offset_suffix
parse_offset_suffix-IsOffset [] = (omega arith, omega arith)
parse_offset_suffix-IsOffset (c ∷ s) = elim (Bool-cases (c == b'+')) [
  | inl e ↦ simp e (signed-IsOffset false (parse_offset s) (parse_offset-bound s))
  | inr e ↦ elim (Bool-cases (c == b'-')) [
    | inl k ↦ simp (e, k) (signed-IsOffset true (parse_offset s) (parse_offset-bound s))
    | inr k ↦ simp (e, k) tt
  ]
]

take_offset-IsTime :
    (t : ScheduleTime) (o : Option ℤ) → IsTime t → IsOffset o → IsTime (take_offset t o).1
unfolding take_offset
take_offset-IsTime t none fits h = fits
take_offset-IsTime t (some z) fits h = record { minute = fits.minute; later = h.0; earlier = h.1 }

take_minute-IsTime :
    (t : ScheduleTime) (o : Option ℕ)
    → IsTime t
    → ((v : ℕ) → o ≡ some v → v < 1440)
    → IsTime (take_minute t o).1
unfolding take_minute
take_minute-IsTime t none fits h = fits
take_minute-IsTime t (some m) fits h = record {
  minute = h m refl;
  later = fits.later;
  earlier = fits.earlier;
}

module _ (s : List ℕ) (t : ScheduleTime) (fits : IsTime t) where
  named-IsTime :
      (k : TimeKind) (rest : List ℕ)
      → IsTime (take_offset (record t { kind = k }) (parse_offset_suffix rest)).1
  named-IsTime k rest =
      take_offset-IsTime (record t { kind = k }) (parse_offset_suffix rest)
        (record { minute = fits.minute; later = fits.later; earlier = fits.earlier })
        (parse_offset_suffix-IsOffset rest)

  parse_after-IsTime : (o k : Option (List ℕ)) → IsTime (parse_after s t o k).1
  unfolding parse_after
  parse_after-IsTime (some rest) k = named-IsTime sunrise rest
  parse_after-IsTime none (some rest) = named-IsTime sunset rest
  parse_after-IsTime none none = take_minute-IsTime t (parse_hhmm s) fits (parse_hhmm-bound s)

  parse_schedule_time-IsTime : IsTime (parse_schedule_time s t).1
  unfolding parse_schedule_time
  parse_schedule_time-IsTime =
      parse_after-IsTime (after_word sunrise_word s) (after_word sunset_word s)

-- What the evaluator of the schedules takes for granted of an entry in use.
pub record IsUsable (e : ScheduleCfg) : Type 0 where
  pub relay : (1 ≤ e.relay) × (e.relay ≤ 8)
  pub plan :
      ((e.mode ≡ repeat) × (1 ≤ e.on_min) × (e.on_min < e.period_min) × (e.period_min < 1440))
      ⊎ ((e.mode ≡ clock) × IsTime e.on × IsTime e.off)

no_time-IsTime : IsTime no_time
no_time-IsTime = record { minute = omega arith; later = omega arith; earlier = omega arith }

-- A period that is taken over is sound.
take_repeat_sound :
    (e : ScheduleCfg) (m p : Option ℕ)
    → ((v : ℕ) → m ≡ some v → (1 ≤ v) × (v < 1440))
    → ((v : ℕ) → p ≡ some v → (1 ≤ v) × (v < 1440))
    → (take_repeat e m p).0 ≡ true
    → (1 ≤ (take_repeat e m p).1.on_min)
      × ((take_repeat e m p).1.on_min < (take_repeat e m p).1.period_min)
      × ((take_repeat e m p).1.period_min < 1440)
unfolding take_repeat take_period
take_repeat_sound e none p f g good = cc
take_repeat_sound e (some m) none f g good = cc
take_repeat_sound e (some m) (some p) f g good =
    let a = f m refl in let b = g p refl in ground (arith, a, b, good)

take_repeat_rest :
    (e : ScheduleCfg) (m p : Option ℕ)
    → ((take_repeat e m p).1.relay ≡ e.relay) × ((take_repeat e m p).1.mode ≡ e.mode)
unfolding take_repeat take_period
take_repeat_rest e none p = (refl, refl)
take_repeat_rest e (some m) none = (refl, refl)
take_repeat_rest e (some m) (some p) = (refl, refl)

module _ (stored : Stored) (e : ScheduleCfg) (mine : (1 ≤ e.relay) × (e.relay ≤ 8))
    (on : IsTime e.on) (off : IsTime e.off) where
  parse_entry-IsUsable :
      (mode : ScheduleMode)
      → e.mode ≡ mode
      → (parse_entry mode stored e).0 ≡ true
      → IsUsable (parse_entry mode stored e).1
  unfolding parse_entry
  parse_entry-IsUsable repeat same good =
      let (relay, mode) = take_repeat_rest e (parse_minutes stored.on) (parse_minutes stored.off) in
      let (a, b, c) =
        take_repeat_sound e (parse_minutes stored.on) (parse_minutes stored.off)
          (parse_minutes-bound stored.on) (parse_minutes-bound stored.off) good in
      record { relay = rw relay mine; plan = inl (mode ∙ same, a, b, c) }
  parse_entry-IsUsable clock same good = elim (Bool-cases (parse_schedule_time stored.on e.on).0) [
    | inl k ↦ simp k (record {
      relay = mine;
      plan = inr (
        same,
        parse_schedule_time-IsTime stored.on e.on on,
        parse_schedule_time-IsTime stored.off e.off off,
      );
    })
    | inr k ↦ let never : false ≡ true = simp k at good in cc never
  ]

entry_base-relay :
    (stored : Stored)
    → ((entry_base stored).relay == 0) ≡ false
    → (1 ≤ (entry_base stored).relay) × ((entry_base stored).relay ≤ 8)
unfolding entry_base
entry_base-relay stored h = ground (arith, h)

pub load_entry-IsUsable :
    (stored : Stored) → ((load_entry stored).relay ≡ 0) ⊎ IsUsable (load_entry stored)
unfolding load_entry
load_entry-IsUsable stored =
    let e = entry_base stored in
    elim (Bool-cases (e.relay == 0)) [
      | inl k ↦ simp k (inl (ground (arith, k)))
      | inr k ↦ elim (Bool-cases (parse_entry e.mode stored e).0) [
        | inl good ↦
            simp (k, good)
              (inr (
                parse_entry-IsUsable stored e (entry_base-relay stored k) no_time-IsTime
                  no_time-IsTime e.mode refl good))
        | inr bad ↦ simp (k, bad) (inl refl)
      ]
    ]
