-- ===== src/Rtc/Registers.antt =====
-- The registers of the chip hold the fields of a date and a time of this century.
use signalk_esp_os_8relay.Base.{
  ℕ, ◌+◌, ◌<◌, ◌≤◌, ◌≡◌, refl, ap, ◌∙◌, sym, arith, Bool, true, false, ◌==◌, some, get_or, bit_and,
  ℤ, pos, u32_of, ltb_ℤ, ◌-ℤ◌,
}
use signalk_esp_os_8relay.Base.Below.{all_below, below-all_below}
use signalk_esp_os_8relay.Base.Signed.{pos_difference}
use signalk_esp_os_8relay.Base.Words.{u8}
use package.signalk_esp_os_8relay.Rtc.{
  DateTime, to_bcd, from_bcd, decode_datetime, clamped_year, encode_datetime, read_block,
}

-- A field whose register has the bits of `mask`.
abbrev comes_back : ℕ → ℕ → Bool
comes_back mask v = from_bcd (bit_and (to_bcd v) mask) == v

bcd_lem :
    (n mask v : ℕ)
    → all_below n (comes_back mask) ≡ true
    → v < n
    → from_bcd (bit_and (to_bcd v) mask) ≡ v
bcd_lem n mask v all l = let e = below-all_below n (comes_back mask) v all l in ground (arith, e)

seconds_back : all_below 60 (comes_back 127) ≡ true
unfolding all_below from_bcd to_bcd
seconds_back = refl

days_back : all_below 40 (comes_back 63) ≡ true
unfolding all_below from_bcd to_bcd
days_back = refl

months_back : all_below 20 (comes_back 31) ≡ true
unfolding all_below from_bcd to_bcd
months_back = refl

years_back : all_below 100 (λ v. from_bcd (to_bcd v) == v) ≡ true
unfolding all_below from_bcd to_bcd
years_back = refl

weekdays_back : all_below 7 (λ v. bit_and (u8 (bit_and v 7)) 7 == v) ≡ true
unfolding all_below
weekdays_back = refl

runs_on : all_below 60 (λ v. bit_and (to_bcd v) 128 == 0) ≡ true
unfolding all_below to_bcd
runs_on = refl

weekday_lem : (v : ℕ) → v < 7 → bit_and (u8 (bit_and v 7)) 7 ≡ v
weekday_lem v l =
    let e = below-all_below 7 (λ v. bit_and (u8 (bit_and v 7)) 7 == v) v weekdays_back l in
    ground (arith, e)

year_lem : (v : ℕ) → v < 100 → from_bcd (to_bcd v) ≡ v
year_lem v l =
    let e = below-all_below 100 (λ v. from_bcd (to_bcd v) == v) v years_back l in ground (arith, e)

clamped_year_lem : (y : ℕ) → y < 100 → clamped_year (pos (2000 + y)) ≡ pos (2000 + y)
unfolding clamped_year
clamped_year_lem y h =
    let low : ltb_ℤ (pos (2000 + y)) (pos 2000) ≡ false = ground arith in
    let high : ltb_ℤ (pos 2099) (pos (2000 + y)) ≡ false = ground arith in simp (low, high) refl

-- A date and time that the chip can hold.
pub record IsOfCentury (dt : DateTime) (y : ℕ) : Type 0 where
  pub year : dt.year ≡ pos (2000 + y)
  pub century : y < 100
  pub month : dt.month ≤ 12
  pub day : dt.day ≤ 31
  pub hour : dt.hour < 24
  pub minute : dt.minute < 60
  pub second : dt.second < 60
  pub wday : dt.wday < 7

module _ (dt : DateTime) (y : ℕ) (fits : IsOfCentury dt y) where
  abbrev reg : ℕ → ℕ
  reg i = get_or (encode_datetime dt) i 0

  year_register : u8 (u32_of (clamped_year dt.year -ℤ pos 2000)) ≡ y
  year_register =
      ap (λ (z : ℤ). u8 (u32_of (z -ℤ pos 2000)))
        (ap clamped_year fits.year ∙ clamped_year_lem y fits.century)
      ∙ ap (λ (z : ℤ). u8 (u32_of z)) (pos_difference (2000 + y) 2000 (omega arith))
      ∙ omega (arith, fits.century)

  -- A date of this century, read from the registers that it is encoded to, is itself.
  pub read_block-encode : read_block reg ≡ some dt
  unfolding read_block encode_datetime decode_datetime
  read_block-encode =
      let on : (bit_and (to_bcd dt.second) 128 == 0) ≡ true =
        below-all_below 60 (λ v. bit_and (to_bcd v) 128 == 0) dt.second runs_on fits.second in
      let s = bcd_lem 60 127 dt.second seconds_back fits.second in
      let mi = bcd_lem 60 127 dt.minute seconds_back fits.minute in
      let h = bcd_lem 40 63 dt.hour days_back (omega (arith, fits.hour)) in
      let d = bcd_lem 40 63 dt.day days_back (omega (arith, fits.day)) in
      let mo = bcd_lem 20 31 dt.month months_back (omega (arith, fits.month)) in
      let w = weekday_lem dt.wday fits.wday in
      let ye : pos (2000 + from_bcd (to_bcd (u8 (u32_of (clamped_year dt.year -ℤ pos 2000)))))
          ≡ dt.year =
        rw year_register (ap (λ k. pos (2000 + k)) (year_lem y fits.century) ∙ sym fits.year) in
      simp on (λ k. some (record {
        year = ye k;
        month = mo k;
        day = d k;
        hour = h k;
        minute = mi k;
        second = s k;
        wday = w k;
      }))
