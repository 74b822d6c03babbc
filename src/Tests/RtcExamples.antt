-- ===== src/Tests/RtcExamples.antt =====
-- The theorems on rtc_pcf85063 at a chip that keeps what it is sent.
use signalk_esp_os_8relay.Base.{
  ℕ, List, [], some, get_or, ◌≡◌, refl, arith, pos, ◌+ℤ◌, ◌-ℤ◌, scale, quot, ◌*◌, ◌/◌,
}
use signalk_esp_os_8relay.Board.{ok, got}
use signalk_esp_os_8relay.Rtc.{
  Bus, civil_from_days, days_from_civil, get_time, set_time, write_datetime,
}
use signalk_esp_os_8relay.Rtc.Calendar.{days_from_civil-civil}
use signalk_esp_os_8relay.Rtc.RoundTrip.{get_time-set}

-- 2024-02-29 is day 19782.
days_from_civil-civil_example :
    let (y, m, d) = civil_from_days (pos 19782) in days_from_civil y m d ≡ pos 19782
days_from_civil-civil_example = days_from_civil-civil 19782 (omega arith)

leap_day : civil_from_days (pos 19782) ≡ (pos 2024, 2, 29)
unfolding civil_from_days ◌+ℤ◌ ◌-ℤ◌ scale quot
leap_day = refl

abbrev chip : Bus (List ℕ)
chip = record { read = λ w reg len. (w, got (λ i. get_or w i 0)); write = λ w reg regs. (regs, ok) }

written : (set_time (record { bus = some chip }) [] (pos 1709210096789)).1 ≡ ok
unfolding set_time write_datetime
written = refl

get_time-set_example :
    (get_time
      (record { bus = some chip })
      (set_time (record { bus = some chip }) [] (pos 1709210096789)).0).1
    ≡ got (pos (1709210096789 / 1000 * 1000))
get_time-set_example =
    get_time-set chip [] 1709210096789 (omega arith) (omega arith) (λ regs e. refl) written
