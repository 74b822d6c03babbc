-- ===== src/Rtc/RoundTrip.antt =====
-- A time that is written to the chip is read back, to the second.
use signalk_esp_os_8relay.Base.{
  ℕ, ◌+◌, ◌-◌, ◌*◌, ◌/◌, ◌%◌, ◌^◌, ◌<◌, ◌≤◌, ◌≡◌, refl, ap, ◌∙◌, arith, false, List, Option, some,
  get_or, ℤ, pos, ltb_ℤ, leb_ℤ,
}
use signalk_esp_os_8relay.Base.Signed.{pos_sum, scale-pos, quot-pos, rem-pos}
use signalk_esp_os_8relay.Base.Words.{u8}
use signalk_esp_os_8relay.Board.{ok, got}
use package.signalk_esp_os_8relay.Rtc.{
  Bus, DateTime, Rtc, encode_datetime, read_block, read_datetime, write_datetime, wday_of,
  read_reply, time_reply, datetime_at, datetime_of, unix_ms_of, get_time, set_time,
}
use package.signalk_esp_os_8relay.Rtc.Calendar.{
  year_of, month_of, day_of, carry_of, in_bounds, civil_from_days-plain, days_from_civil-plain,
  year_of_century,
}
use package.signalk_esp_os_8relay.Rtc.Registers.{IsOfCentury, read_block-encode}

wday_of-bound : (days : ℕ) → wday_of (pos days) < 7
unfolding wday_of
wday_of-bound days =
    let low : ltb_ℤ (pos ((days + 4) % 7)) (pos 0) ≡ false = ground arith in
    simp (pos_sum days 4, rem-pos (days + 4) 7 (omega arith), low) (omega arith)

module _ (secs : ℕ) (fits : secs < 2 ^ 40) where
  abbrev days : ℕ
  days = secs / 86400

  abbrev sod : ℕ
  sod = secs % 86400

  abbrev era : ℕ
  era = (days + 719468) / 146097

  abbrev doe : ℕ
  doe = (days + 719468) % 146097

  abbrev plain : DateTime
  plain = record {
    year = pos (year_of doe + 400 * era + carry_of doe);
    month = month_of doe;
    day = day_of doe;
    hour = sod / 3600;
    minute = sod / 60 % 60;
    second = sod % 60;
    wday = wday_of (pos days);
  }

  month_fits : month_of doe ≤ 12
  month_fits = let (a, b, c, d) = in_bounds doe (omega arith) in ground (arith, d)

  day_fits : day_of doe ≤ 31
  day_fits = (in_bounds doe (omega arith)).1

  datetime_at-plain : datetime_at (pos days) sod ≡ plain
  unfolding datetime_at
  datetime_at-plain =
      let m : u8 (month_of doe) ≡ month_of doe = omega (arith, month_fits) in
      let d : u8 (day_of doe) ≡ day_of doe = omega (arith, day_fits) in
      let h : u8 (sod / 3600) ≡ sod / 3600 = omega arith in
      let mi : u8 (sod / 60 % 60) ≡ sod / 60 % 60 = omega arith in
      let s : u8 (sod % 60) ≡ sod % 60 = omega arith in
      simp (civil_from_days-plain days (omega arith), m, d, h, mi, s) refl

  datetime_of-plain : datetime_of (pos secs) ≡ plain
  unfolding datetime_of
  datetime_of-plain =
      let low : ltb_ℤ (pos sod) (pos 0) ≡ false = ground arith in
      simp (rem-pos secs 86400 (omega arith), quot-pos secs 86400 (omega arith), low)
        datetime_at-plain

  unix_ms_of-plain : unix_ms_of plain ≡ pos (secs * 1000)
  unfolding unix_ms_of
  unix_ms_of-plain =
      let total : 1000 * (86400 * days + sod / 3600 * 3600 + sod / 60 % 60 * 60 + sod % 60)
          ≡ secs * 1000 =
        omega arith in
      simp
        (
          days_from_civil-plain days (omega arith),
          scale-pos 86400 days,
          pos_sum (86400 * days) (sod / 3600 * 3600),
          pos_sum (86400 * days + sod / 3600 * 3600) (sod / 60 % 60 * 60),
          pos_sum (86400 * days + sod / 3600 * 3600 + sod / 60 % 60 * 60) (sod % 60),
          scale-pos 1000 (86400 * days + sod / 3600 * 3600 + sod / 60 % 60 * 60 + sod % 60),
        )
        (ap (λ k. pos k) total)

  plain-IsOfCentury :
      946684800 ≤ secs
      → secs < 4102444800
      → IsOfCentury plain (year_of doe + 400 * era + carry_of doe - 2000)
  plain-IsOfCentury low high =
      let (early, late) = year_of_century days (omega arith) (omega arith) (omega arith) in
      let y = year_of doe + 400 * era + carry_of doe in
      let same : y ≡ 2000 + (y - 2000) = omega (arith, early) in
      record {
        year = ap (λ k. pos k) same;
        century = omega (arith, early, late);
        month = month_fits;
        day = day_fits;
        hour = omega arith;
        minute = omega arith;
        second = omega arith;
        wday = wday_of-bound days;
      }

-- What the registers of a time hold, read back as one.
read_block-datetime_of :
    (secs : ℕ)
    → 946684800 ≤ secs
    → secs < 4102444800
    → read_block (λ i. get_or (encode_datetime (datetime_of (pos secs))) i 0)
      ≡ some (datetime_of (pos secs))
read_block-datetime_of secs low high =
    let fits : secs < 2 ^ 40 = omega arith in
    rw (datetime_of-plain secs fits) (
      read_block-encode (plain secs fits)
        (year_of (doe secs fits) + 400 * era secs fits + carry_of (doe secs fits) - 2000)
        (plain-IsOfCentury secs fits low high))

module _ {World : Type 0} (bus : Bus World) (w : World) (n : ℕ) (low : 946684800000 ≤ n)
    (high : n < 4102444800000)
    (remembers : (regs : List ℕ)
      → (bus.write w 4 regs).1 ≡ ok
      → (bus.read (bus.write w 4 regs).0 4 7).1 ≡ got (λ i. get_or regs i 0)) where
  abbrev rtc : Rtc World
  rtc = record { bus = some bus }

  abbrev time : DateTime
  time = datetime_of (pos (n / 1000))

  abbrev sent : List ℕ
  sent = encode_datetime time

  set_time-plain : set_time rtc w (pos n) ≡ bus.write w 4 sent
  unfolding set_time write_datetime
  set_time-plain =
      let late : leb_ℤ (pos n) (pos 0) ≡ false = ground arith in
      simp (late, quot-pos n 1000 (omega arith)) refl

  get_time-read :
      (w' : World) (dt : DateTime)
      → (read_datetime bus w').1 ≡ got (some dt)
      → (get_time rtc w').1 ≡ got (unix_ms_of dt)
  unfolding get_time time_reply
  get_time-read w' dt e = ap time_reply e

  read_datetime-block :
      (w' : World) (reg : ℕ → ℕ)
      → (bus.read w' 4 7).1 ≡ got reg
      → (read_datetime bus w').1 ≡ got (read_block reg)
  unfolding read_datetime read_reply
  read_datetime-block w' reg e = ap read_reply e

  -- A time from 2000-01-01 to 2099-12-31 that is written to the clock chip and read back at once
  -- comes back rounded down to the second, if the write succeeds and the chip gives back the seven
  -- bytes that a write that succeeds has sent it.
  pub get_time-set :
      (set_time rtc w (pos n)).1 ≡ ok
      → (get_time rtc (set_time rtc w (pos n)).0).1 ≡ got (pos (n / 1000 * 1000))
  get_time-set good =
      let written : (bus.write w 4 sent).1 ≡ ok = rw set_time-plain at good in
      rw set_time-plain (
        get_time-read (bus.write w 4 sent).0 time (
          read_datetime-block (bus.write w 4 sent).0 (λ i. get_or sent i 0) (remembers sent written)
          ∙ ap (λ (b : Option DateTime). got b)
              (read_block-datetime_of (n / 1000) (omega arith) (omega arith)))
        ∙ ap (λ (z : ℤ). got z)
            (rw (datetime_of-plain (n / 1000) (omega arith))
              (unix_ms_of-plain (n / 1000) (omega arith))))
