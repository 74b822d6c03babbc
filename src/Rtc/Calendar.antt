-- ===== src/Rtc/Calendar.antt =====
-- The days of the calendar and the weekdays.
use signalk_esp_os_8relay.Base.{
  ℕ, ◌+◌, ◌-◌, ◌*◌, ◌/◌, ◌%◌, ◌^◌, ◌<◌, ◌≤◌, ◌≡◌, ◌⊎◌, refl, ap, ◌∙◌, arith, if◌then◌else◌, ltb,
  leb, true, ℤ, u32_of, pos, ◌-ℤ◌,
}
use signalk_esp_os_8relay.Base.Words.{u32, add32, sub32}
use signalk_esp_os_8relay.Base.Signed.{pos_sum, pos_difference, scale-pos, quot-pos}
use package.signalk_esp_os_8relay.Rtc.{
  civil_in_era, days_in_era, days_from_march, civil_from_days, days_from_civil, year_days,
  month_from_march, era_of,
}

-- The computations of both functions for a day of an era, in plain numbers.
abbrev pub year_of : ℕ → ℕ
year_of doe = (doe - doe / 1460 + doe / 36524 - doe / 146096) / 365

abbrev pub before : ℕ → ℕ
before yoe = yoe * 365 + yoe / 4 - yoe / 100

year_of-bound : (doe : ℕ) → doe < 146097 → year_of doe ≤ 399
year_of-bound doe h = omega arith

before-year_of :
    (doe yoe : ℕ) → doe < 146097 → yoe ≡ year_of doe → (before yoe ≤ doe) × (doe - before yoe ≤ 365)
before-year_of doe yoe h e = (omega arith, omega arith)

abbrev pub month_at : ℕ → ℕ
month_at mp = if ltb mp 10 then mp + 3 else mp - 9

abbrev pub day_at : ℕ → ℕ → ℕ
day_at doy mp = doy - (153 * mp + 2) / 5 + 1

month_at_lem :
    (doy mp : ℕ)
    → doy ≤ 365
    → mp ≡ (5 * doy + 2) / 153
    → (1 ≤ day_at doy mp) × (day_at doy mp ≤ 31) × ((153 * mp + 2) / 5 ≤ doy) × (mp ≤ 11)
month_at_lem doy mp h e = omega arith

era_of-pos : (z n : ℕ) → 0 < n → era_of (pos z) n ≡ pos (z / n)
era_of-pos z n h = let up : leb 0 (z + 0) ≡ true = ground arith in simp up (quot-pos z n h)

-- The year of the era, the day of the year from March on, the month from March on, and what the
-- date is made of.
abbrev pub doy_of : ℕ → ℕ
doy_of doe = doe - before (year_of doe)

abbrev pub mp_of : ℕ → ℕ
mp_of doe = (5 * doy_of doe + 2) / 153

abbrev pub month_of : ℕ → ℕ
month_of doe = month_at (mp_of doe)

abbrev pub day_of : ℕ → ℕ
day_of doe = day_at (doy_of doe) (mp_of doe)

abbrev pub carry_of : ℕ → ℕ
carry_of doe = if leb (month_of doe) 2 then 1 else 0

-- A day of an era, there and back.
module _ (doe : ℕ) (h : doe < 146097) where
  days_before : year_days (year_of doe) ≡ before (year_of doe)
  days_before = let y = year_of-bound doe h in omega (arith, y)

  before-year : (before (year_of doe) ≤ doe) × (doe - before (year_of doe) ≤ 365)
  before-year = before-year_of doe (year_of doe) h refl

  yoe_lem : sub32 (add32 (sub32 doe (doe / 1460)) (doe / 36524)) (doe / 146096) / 365 ≡ year_of doe
  yoe_lem = omega arith

  doy_lem : sub32 doe (year_days (year_of doe)) ≡ doy_of doe
  doy_lem = rw days_before (let (small, year) = before-year in omega (arith, small))

  mp_lem : u32 (5 * doy_of doe + 2) / 153 ≡ mp_of doe
  mp_lem = let (small, year) = before-year in omega (arith, year)

  pub in_bounds :
      (1 ≤ day_of doe)
      × (day_of doe ≤ 31)
      × ((153 * mp_of doe + 2) / 5 ≤ doy_of doe)
      × (mp_of doe ≤ 11)
  in_bounds = let (small, year) = before-year in month_at_lem (doy_of doe) (mp_of doe) year refl

  day_lem : add32 (sub32 (doy_of doe) (u32 (153 * mp_of doe + 2) / 5)) 1 ≡ day_of doe
  day_lem = let (a, b, c, d) = in_bounds in omega (arith, a, b, c, d)

  month_lem :
      (if ltb (mp_of doe) 10 then add32 (mp_of doe) 3 else sub32 (mp_of doe) 9) ≡ month_of doe
  month_lem = let (a, b, c, d) = in_bounds in ground (arith, d)

  module _ (e : ℕ) where
    civil_in_era-plain :
        civil_in_era (pos e) doe
        ≡ (pos (year_of doe + 400 * e + carry_of doe), month_of doe, day_of doe)
    unfolding civil_in_era
    civil_in_era-plain =
        simp
          (
            yoe_lem,
            doy_lem,
            mp_lem,
            day_lem,
            month_lem,
            scale-pos 400 e,
            pos_sum (year_of doe) (400 * e),
            pos_sum (year_of doe + 400 * e) (carry_of doe),
          )
          refl

    days_in_era-plain :
        days_in_era (pos e) (year_of doe) (month_of doe) (day_of doe)
        ≡ pos (146097 * e + doe) -ℤ pos 719468
    unfolding days_in_era
    days_in_era-plain =
        let (a, b, c, d) = in_bounds in
        let (small, year) = before-year in
        let march : month_from_march (month_of doe) ≡ mp_of doe = ground (arith, d) in
        let day : sub32 (add32 (u32 (153 * mp_of doe + 2) / 5) (day_of doe)) 1 ≡ doy_of doe =
          omega (arith, a, b, c, d) in
        let whole : add32 (before (year_of doe)) (doy_of doe) ≡ doe = omega (arith, small) in
        simp (march, day, days_before, whole, scale-pos 146097 e, pos_sum (146097 * e) doe) refl

    days_from_march-plain :
        400 * e < 2 ^ 32
        → days_from_march (pos (year_of doe + 400 * e)) (month_of doe) (day_of doe)
          ≡ pos (146097 * e + doe) -ℤ pos 719468
    unfolding days_from_march
    days_from_march-plain small =
        let y = year_of-bound doe h in
        let era : (year_of doe + 400 * e) / 400 ≡ e = omega (arith, y) in
        let rest : u32_of (pos (year_of doe + 400 * e - 400 * e)) ≡ year_of doe =
          omega (arith, y) in
        simp
          (
            era_of-pos (year_of doe + 400 * e) 400 (omega arith),
            era,
            scale-pos 400 e,
            pos_difference (year_of doe + 400 * e) (400 * e) (omega arith),
            rest,
          )
          days_in_era-plain

-- The dates of the days from 2000-01-01 to 2099-12-31, counted from the first era on.
century_lem :
    (z doe yoe mp c : ℕ)
    → 730425 ≤ z
    → z < 766950
    → doe ≡ z % 146097
    → yoe ≡ year_of doe
    → mp ≡ (5 * (doe - before yoe) + 2) / 153
    → (((mp < 10) × (c ≡ 0)) ⊎ ((10 ≤ mp) × (c ≡ 1)))
    → (2000 ≤ yoe + 400 * (z / 146097) + c) × (yoe + 400 * (z / 146097) + c < 2100)
century_lem z doe yoe mp c low high d y m k = omega arith

carry_cases :
    (doe : ℕ)
    → doe < 146097
    → (((mp_of doe < 10) × (carry_of doe ≡ 0)) ⊎ ((10 ≤ mp_of doe) × (carry_of doe ≡ 1)))
carry_cases doe h = let (a, b, c, d) = in_bounds doe h in ground (arith, d)

module _ (z : ℕ) (fits : z < 2 ^ 32) where
  abbrev era : ℕ
  era = (z + 719468) / 146097

  abbrev day_of_era : ℕ
  day_of_era = (z + 719468) % 146097

  abbrev date : ℤ × ℕ × ℕ
  date = civil_from_days (pos z)

  civil_from_days-era : date ≡ civil_in_era (pos era) day_of_era
  unfolding civil_from_days
  civil_from_days-era =
      let rest : u32_of (pos (z + 719468 - 146097 * era)) ≡ day_of_era = omega arith in
      simp
        (
          pos_sum z 719468,
          era_of-pos (z + 719468) 146097 (omega arith),
          scale-pos 146097 era,
          pos_difference (z + 719468) (146097 * era) (omega arith),
          rest,
        )
        refl

  pub civil_from_days-plain : date ≡ (
    pos (year_of day_of_era + 400 * era + carry_of day_of_era),
    month_of day_of_era,
    day_of day_of_era,
  )
  civil_from_days-plain = civil_from_days-era ∙ civil_in_era-plain day_of_era (omega arith) era

  pub days_from_civil-plain :
      days_from_civil
        (pos (year_of day_of_era + 400 * era + carry_of day_of_era))
        (month_of day_of_era)
        (day_of day_of_era)
      ≡ pos z
  unfolding days_from_civil
  days_from_civil-plain =
      let y = year_of day_of_era + 400 * era in
      let c = carry_of day_of_era in
      let back : y + c - c ≡ y = omega arith in
      let all : 146097 * era + day_of_era - 719468 ≡ z = omega arith in
      simp (pos_difference (y + c) c (omega arith), back)
        (days_from_march-plain day_of_era (omega arith) era (omega arith)
          ∙ pos_difference (146097 * era + day_of_era) 719468 (omega arith)
          ∙ ap (λ k. pos k) all)

  -- The date that a day from 1970-01-01 on has, for 2^32 days, is the date of that day: going from
  -- the day to the year, month and day and back ends at the same day.
  pub days_from_civil-civil :
      let (y, m, d) = civil_from_days (pos z) in days_from_civil y m d ≡ pos z
  days_from_civil-civil = rw civil_from_days-plain days_from_civil-plain

  pub year_of_century :
      10957 ≤ z
      → z < 47482
      → (2000 ≤ year_of day_of_era + 400 * era + carry_of day_of_era)
        × (year_of day_of_era + 400 * era + carry_of day_of_era < 2100)
  year_of_century low high =
      century_lem (z + 719468) day_of_era (year_of day_of_era) (mp_of day_of_era)
        (carry_of day_of_era) (omega arith) (omega arith) refl refl refl
        (carry_cases day_of_era (omega arith))
