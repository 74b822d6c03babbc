-- ===== src/DeviceConfig/Schedules.antt =====
-- The schedules in components/device_config/src/device_config.c: their texts are parsed, and two
-- entries for one relay disable each other. What the settings store holds of an entry is a `Stored`.
use signalk_esp_os_8relay.Base.{
  is_digit, ℕ, zero, suc, ◌+◌, ◌-◌, ◌*◌, if◌then◌else◌, Bool, true, false, not, ◌&&◌, ◌||◌, ◌==◌,
  ltb, List, [], ◌∷◌, same_text, char_at, after_word, Option, none, some, bit_and, bit_or, ℤ, pos,
  between, u32_of,
}
use signalk_esp_os_8relay.Base.Bits.{bit}
use signalk_esp_os_8relay.Base.Words.{u8}
use signalk_esp_os_8relay.Board.{channels}
use package.signalk_esp_os_8relay.DeviceConfig.{
  ScheduleMode, clock, repeat, by_clock, sunrise, sunset, ScheduleTime, ScheduleCfg, max_entries,
}

-- The test at the start of parse_hhmm().
unfoldable pub looks_like_time : List ℕ → Bool
unfolding is_digit
looks_like_time s =
    is_digit (char_at s 0)
    && is_digit (char_at s 1)
    && (char_at s 2 == b':')
    && is_digit (char_at s 3)
    && is_digit (char_at s 4)
    && (char_at s 5 == 0)

unfoldable pub parse_hhmm : List ℕ → Option ℕ
unfolding looks_like_time
parse_hhmm s =
    let h = (char_at s 0 - b'0') * 10 + (char_at s 1 - b'0') in
    let m = (char_at s 3 - b'0') * 10 + (char_at s 4 - b'0') in
    if not (looks_like_time s) || (ltb 23 h || ltb 59 m) then none else some (h * 60 + m)

-- The loop over at most four digits: the rounds left, the value and the count so far.
unfoldable pub read_digits : (rounds v digits : ℕ) → List ℕ → ℕ × ℕ × List ℕ
unfolding is_digit
read_digits zero v digits s = (v, digits, s)
read_digits (suc n) v digits [] = (v, digits, [])
read_digits (suc n) v digits (c ∷ s) =
    let rest = read_digits n (v * 10 + (c - b'0')) (suc digits) s in
    if is_digit c then rest else (v, digits, c ∷ s)

-- `if (*s == 'm') s++`
unfoldable pub skip_unit : List ℕ → List ℕ
skip_unit [] = []
skip_unit (c ∷ s) = if c == b'm' then s else c ∷ s

-- The number after the sign in parse_offset_suffix().
unfoldable pub parse_offset : List ℕ → Option ℕ
unfolding read_digits skip_unit
parse_offset s =
    let (v, digits, rest) = read_digits 4 0 0 s in
    if digits == 0
    then none
    else if not (char_at (skip_unit rest) 0 == 0) || ltb 1439 v
    then none
    else some v

-- `sign * v`
unfoldable pub signed : (negative : Bool) → Option ℕ → Option ℤ
signed negative none = none
signed false (some v) = some (between v 0)
signed true (some v) = some (between 0 v)

unfoldable pub parse_offset_suffix : List ℕ → Option ℤ
unfolding parse_offset signed
parse_offset_suffix [] = some (pos 0)
parse_offset_suffix (c ∷ s) =
    if c == b'+'
    then signed false (parse_offset s)
    else if c == b'-'
    then signed true (parse_offset s)
    else none

abbrev pub sunrise_word : List ℕ
sunrise_word = b's' ∷ b'u' ∷ b'n' ∷ b'r' ∷ b'i' ∷ b's' ∷ b'e' ∷ []

abbrev pub sunset_word : List ℕ
sunset_word = b's' ∷ b'u' ∷ b'n' ∷ b's' ∷ b'e' ∷ b't' ∷ []

abbrev pub repeat_word : List ℕ
repeat_word = b'r' ∷ b'e' ∷ b'p' ∷ b'e' ∷ b'a' ∷ b't' ∷ []

-- What a parsed offset or minute does to `out`, and the result.
unfoldable pub take_offset : ScheduleTime → Option ℤ → Bool × ScheduleTime
take_offset t none = (false, t)
take_offset t (some o) = (true, record t { offset_min = o })

unfoldable pub take_minute : ScheduleTime → Option ℕ → Bool × ScheduleTime
take_minute t none = (false, t)
take_minute t (some m) = (true, record t { kind = by_clock; minute_of_day = m })

-- What follows "sunrise", what follows "sunset", or neither.
unfoldable pub parse_after :
    List ℕ → ScheduleTime → Option (List ℕ) → Option (List ℕ) → Bool × ScheduleTime
unfolding parse_offset_suffix parse_hhmm take_offset take_minute
parse_after s t (some rest) o = take_offset (record t { kind = sunrise }) (parse_offset_suffix rest)
parse_after s t none (some rest) =
    take_offset (record t { kind = sunset }) (parse_offset_suffix rest)
parse_after s t none none = take_minute t (parse_hhmm s)

unfoldable pub parse_schedule_time : List ℕ → ScheduleTime → Bool × ScheduleTime
unfolding after_word parse_after
parse_schedule_time s t = parse_after s t (after_word sunrise_word s) (after_word sunset_word s)

unfoldable pub parse_minutes : List ℕ → Option ℕ
unfolding is_digit read_digits
parse_minutes s =
    let (v, digits, rest) = read_digits 4 0 0 s in
    if not (is_digit (char_at s 0)) || (not (char_at rest 0 == 0) || (ltb v 1 || ltb 1439 v))
    then none
    else some v

-- The stored values of an entry: two integers of 32 bits and three texts.
pub record Stored : Type 0 where
  pub relay : ℤ
  pub mode : List ℕ
  pub days : ℤ
  pub on : List ℕ
  pub off : List ℕ

-- What memset() leaves.
abbrev pub no_time : ScheduleTime
no_time = record { kind = by_clock; minute_of_day = 0; offset_min = pos 0 }

-- The entry before its texts are parsed.
unfoldable pub entry_base : Stored → ScheduleCfg
entry_base stored =
    let relay = u8 (u32_of stored.relay) in
    record {
      relay = if ltb channels relay then 0 else relay;
      mode = if same_text stored.mode repeat_word then repeat else clock;
      on = no_time;
      off = no_time;
      on_min = 0;
      period_min = 0;
      days = bit_and (u32_of stored.days) 127;
    }

unfoldable pub take_period : (ScheduleCfg) → ℕ → Option ℕ → Bool × ScheduleCfg
take_period e m none = (false, record e { on_min = m })
take_period e m (some p) = (ltb m p, record e { on_min = m; period_min = p })

unfoldable pub take_repeat : ScheduleCfg → Option ℕ → Option ℕ → Bool × ScheduleCfg
unfolding take_period
take_repeat e none p = (false, e)
take_repeat e (some m) p = take_period e m p

-- `ok`, and the entry with what has been parsed.
unfoldable pub parse_entry : ScheduleMode → Stored → ScheduleCfg → Bool × ScheduleCfg
unfolding take_repeat
parse_entry repeat stored e = take_repeat e (parse_minutes stored.on) (parse_minutes stored.off)
parse_entry clock stored e =
    let (good, on) = parse_schedule_time stored.on e.on in
    let (good', off) = parse_schedule_time stored.off e.off in
    if good then (good', record e { on = on; off = off }) else (false, record e { on = on })

-- One round of the loop over the schedules.
unfoldable pub load_entry : Stored → ScheduleCfg
unfolding entry_base parse_entry
load_entry stored =
    let e = entry_base stored in
    let (good, e') = parse_entry e.mode stored e in
    if e.relay == 0 then e else if good then e' else record e' { relay = 0 }

-- `count`
unfoldable pub count_relay : (raw_sched_relay : ℕ → ℕ) → (r n : ℕ) → ℕ
count_relay raw r zero = 0
count_relay raw r (suc n) = count_relay raw r n + (if raw n == r then 1 else 0)

-- The loop over the relays, 1 to `n`: the entries, and schedule_relay_conflict.
unfoldable pub conflict_loop :
    (raw_sched_relay : ℕ → ℕ) → (n : ℕ) → (ℕ → ScheduleCfg) → (ℕ → ScheduleCfg) × ℕ
conflict_loop raw zero entries = (entries, 0)
conflict_loop raw (suc n) entries =
    let (before, conflict) = conflict_loop raw n entries in
    if ltb (count_relay raw (suc n) max_entries) 2 then (before, conflict) else (
      λ i.
          if ltb i max_entries && (raw i == suc n)
          then record (before i) { relay = 0 }
          else before i,
      bit_or conflict (bit n),
    )

-- The schedules of device_config_load().
unfoldable pub load_schedules : (ℕ → Stored) → (ℕ → ScheduleCfg) × ℕ
unfolding load_entry conflict_loop
load_schedules stored =
    let entries = λ (i : ℕ). load_entry (stored i) in
    conflict_loop (λ i. (entries i).relay) channels entries
