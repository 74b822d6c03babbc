-- ===== src/Rtc.antt =====
-- components/rtc_pcf85063: the battery-backed clock PCF85063, in registers (pcf85063.c) and in
-- milliseconds of Unix time (rtc_pcf85063.c). The I2C bus is not part of the repository: it is a
-- `Bus` over a state of the outside, `World`.
pub mod Calendar
pub mod Registers
pub mod RoundTrip
use signalk_esp_os_8relay.Base.{
  ℕ, suc, ◌+◌, ◌-◌, ◌*◌, ◌/◌, ◌%◌, ◌^◌, if◌then◌else◌, Bool, not, ◌==◌, ltb, leb, List, [], ◌∷◌,
  Option, none, some, bit_and, bit_or, ℤ, pos, negsuc, ◌+ℤ◌, ◌-ℤ◌, scale, quot, rem, pos_part,
  u32_of, ltb_ℤ, leb_ℤ,
}
use signalk_esp_os_8relay.Base.Words.{u8, u32, add32, sub32}
use signalk_esp_os_8relay.Board.{Status, Reply, ok, fail, got, failed, invalid_state, invalid_arg}

-- PCF85063_REG_CTRL1
abbrev pub reg_ctrl1 : ℕ
reg_ctrl1 = 0

-- PCF85063_REG_SECONDS
abbrev pub reg_seconds : ℕ
reg_seconds = 4

-- PCF85063_TIME_BLOCK_LEN
abbrev pub time_block_len : ℕ
time_block_len = 7

-- pcf85063_bus_t, with what each call does to the outside; a read gives the bytes by their index.
pub record Bus (World : Type 0) : Type 0 where
  pub read : World → ℕ → ℕ → World × Reply (ℕ → ℕ)
  pub write : World → ℕ → List ℕ → World × Status

-- pcf85063_datetime_t
pub record DateTime : Type 0 where
  pub year : ℤ
  pub month : ℕ
  pub day : ℕ
  pub hour : ℕ
  pub minute : ℕ
  pub second : ℕ
  pub wday : ℕ

unfoldable pub to_bcd : ℕ → ℕ
to_bcd v = u8 (bit_or (v / 10 * 2 ^ 4) (v % 10))

unfoldable pub from_bcd : ℕ → ℕ
from_bcd v = u8 (v / 2 ^ 4 * 10 + bit_and v 15)

-- The fields of the seven registers.
unfoldable pub decode_datetime : (ℕ → ℕ) → DateTime
unfolding from_bcd
decode_datetime reg = record {
  second = from_bcd (bit_and (reg 0) 127);
  minute = from_bcd (bit_and (reg 1) 127);
  hour = from_bcd (bit_and (reg 2) 63);
  day = from_bcd (bit_and (reg 3) 63);
  wday = bit_and (reg 4) 7;
  month = from_bcd (bit_and (reg 5) 31);
  year = pos (2000 + from_bcd (reg 6));
}

-- `year` after its two bounds.
unfoldable pub clamped_year : ℤ → ℤ
clamped_year year =
    if ltb_ℤ year (pos 2000) then pos 2000 else if ltb_ℤ (pos 2099) year then pos 2099 else year

-- The seven registers of the fields.
unfoldable pub encode_datetime : DateTime → List ℕ
unfolding to_bcd clamped_year
encode_datetime dt =
    to_bcd dt.second
    ∷ to_bcd dt.minute
    ∷ to_bcd dt.hour
    ∷ to_bcd dt.day
    ∷ u8 (bit_and dt.wday 7)
    ∷ to_bcd dt.month
    ∷ to_bcd (u8 (u32_of (clamped_year dt.year -ℤ pos 2000)))
    ∷ []

-- What pcf85063_read_datetime() makes of its registers: nothing where the oscillator has stopped.
unfoldable pub read_block : (ℕ → ℕ) → Option DateTime
unfolding decode_datetime
read_block reg = if bit_and (reg 0) 128 == 0 then some (decode_datetime reg) else none

unfoldable pub read_reply : Reply (ℕ → ℕ) → Reply (Option DateTime)
read_reply (got reg) = got (read_block reg)
read_reply (failed e) = failed e

module _ {World : Type 0} (bus : Bus World) where
  -- pcf85063_init
  unfoldable pub init_chip : World → World × Status
  init_chip w = bus.write w reg_ctrl1 (0 ∷ [])

  -- pcf85063_read_datetime
  unfoldable pub read_datetime : World → World × Reply (Option DateTime)
  read_datetime w =
      let (w', reply) = bus.read w reg_seconds time_block_len in (w', read_reply reply)

  -- pcf85063_write_datetime
  unfoldable pub write_datetime : World → DateTime → World × Status
  write_datetime w dt = bus.write w reg_seconds (encode_datetime dt)

-- `m + (m > 2 ? -3 : 9)`, of unsigned integers.
abbrev pub month_from_march : ℕ → ℕ
month_from_march m = if ltb 2 m then sub32 m 3 else add32 m 9

-- The days of the first `yoe` years of an era.
abbrev pub year_days : ℕ → ℕ
year_days yoe = sub32 (u32 (yoe * 365 + yoe / 4)) (yoe / 100)

abbrev pub era_of : ℤ → ℕ → ℤ
era_of z n = quot (if leb_ℤ (pos 0) z then z else z -ℤ pos (n - 1)) n

-- days_from_civil() after its line for `era`.
unfoldable pub days_in_era : (era : ℤ) → (yoe m d : ℕ) → ℤ
days_in_era era yoe m d =
    let doy = sub32 (add32 (u32 (153 * month_from_march m + 2) / 5) d) 1 in
    let doe = add32 (year_days yoe) doy in (scale 146097 era +ℤ pos doe) -ℤ pos 719468

-- days_from_civil() after its first line.
unfoldable pub days_from_march : ℤ → ℕ → ℕ → ℤ
unfolding days_in_era
days_from_march y m d = let era = era_of y 400 in days_in_era era (u32_of (y -ℤ scale 400 era)) m d

unfoldable pub days_from_civil : ℤ → ℕ → ℕ → ℤ
unfolding days_from_march
days_from_civil y m d = days_from_march (y -ℤ pos (if leb m 2 then 1 else 0)) m d

-- civil_from_days() after its line for `doe`: the year, the month and the day.
unfoldable pub civil_in_era : (era : ℤ) → (doe : ℕ) → ℤ × ℕ × ℕ
civil_in_era era doe =
    let yoe = sub32 (add32 (sub32 doe (doe / 1460)) (doe / 36524)) (doe / 146096) / 365 in
    let yr = pos yoe +ℤ scale 400 era in
    let doy = sub32 doe (year_days yoe) in
    let mp = u32 (5 * doy + 2) / 153 in
    let d = add32 (sub32 doy (u32 (153 * mp + 2) / 5)) 1 in
    let m = if ltb mp 10 then add32 mp 3 else sub32 mp 9 in
    (yr +ℤ pos (if leb m 2 then 1 else 0), m, d)

unfoldable pub civil_from_days : ℤ → ℤ × ℕ × ℕ
unfolding civil_in_era
civil_from_days z =
    let z1 = z +ℤ pos 719468 in
    let era = era_of z1 146097 in civil_in_era era (u32_of (z1 -ℤ scale 146097 era))

unfoldable pub wday_of : ℤ → ℕ
wday_of days =
    let w = rem (days +ℤ pos 4) 7 in u8 (u32_of (if ltb_ℤ w (pos 0) then w +ℤ pos 7 else w))

-- The fields for a day and a second of it.
unfoldable pub datetime_at : (days : ℤ) → (sod : ℕ) → DateTime
datetime_at days sod =
    let (y, mo, d) = civil_from_days days in
    record {
      year = y;
      month = u8 mo;
      day = u8 d;
      hour = u8 (sod / 3600);
      minute = u8 (sod / 60 % 60);
      second = u8 (sod % 60);
      wday = wday_of days;
    }

-- The fields for a time in seconds, of which the day is rounded down.
unfoldable pub datetime_of : ℤ → DateTime
datetime_of secs =
    if ltb_ℤ (rem secs 86400) (pos 0)
    then datetime_at (quot secs 86400 -ℤ pos 1) (pos_part (rem secs 86400 +ℤ pos 86400))
    else datetime_at (quot secs 86400) (pos_part (rem secs 86400))

-- The milliseconds of rtc_pcf85063_get_time().
unfoldable pub unix_ms_of : DateTime → ℤ
unix_ms_of dt =
    let days = days_from_civil dt.year dt.month dt.day in
    scale 1000
      (((scale 86400 days +ℤ pos (dt.hour * 3600)) +ℤ pos (dt.minute * 60)) +ℤ pos dt.second)

-- What rtc_pcf85063_get_time() makes of what it has read.
unfoldable pub time_reply : Reply (Option DateTime) → Reply ℤ
time_reply (got (some dt)) = got (unix_ms_of dt)
time_reply (got none) = failed invalid_state
time_reply (failed e) = failed e

-- The static struct `s`: the bus, once it is `inited`.
pub record Rtc (World : Type 0) : Type 0 where
  pub bus : Option (Bus World)

module _ {World : Type 0} where
  -- rtc_pcf85063_init
  unfoldable pub init : Bus World → Rtc World → World → Rtc World × World × Status
  unfolding init_chip
  init bus s w =
      let (w', status) = init_chip bus w in
      elim status [ ok ↦ (record { bus = some bus }, w', ok) | fail e ↦ (s, w', fail e) ]

  -- rtc_pcf85063_get_time
  unfoldable pub get_time : Rtc World → World → World × Reply ℤ
  get_time s w = elim s.bus [
    | none ↦ (w, failed invalid_state)
    | some bus ↦ let (w', reply) = read_datetime bus w in (w', time_reply reply)
  ]

  -- rtc_pcf85063_set_time
  unfoldable pub set_time : Rtc World → World → ℤ → World × Status
  set_time s w unix_ms = elim s.bus [
    | none ↦ (w, fail invalid_state)
    | some bus ↦
        if leb_ℤ unix_ms (pos 0)
        then (w, fail invalid_arg)
        else write_datetime bus w (datetime_of (quot unix_ms 1000))
  ]
