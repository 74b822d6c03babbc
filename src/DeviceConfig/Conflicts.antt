-- ===== src/DeviceConfig/Conflicts.antt =====
-- Schedules that name one relay disable each other.
use signalk_esp_os_8relay.Base.{
  ℕ, zero, suc, ◌<◌, ◌≤◌, ◌≡◌, ◌⊎◌, inl, inr, refl, ap, sym, ◌∙◌, arith, Bool-cases, if◌then◌else◌,
  Bool, true, false, ◌&&◌, ◌==◌, ltb, leb,
}
use mathlib.Core.Path.{subst}
use package.signalk_esp_os_8relay.DeviceConfig.{ScheduleCfg}
use package.signalk_esp_os_8relay.DeviceConfig.Schedules.{
  Stored, load_entry, count_relay, conflict_loop, load_schedules,
}
use package.signalk_esp_os_8relay.DeviceConfig.Usable.{IsUsable, load_entry-IsUsable}

module _ (raw : ℕ → ℕ) (r : ℕ) where
  count_relay-one : (n i : ℕ) → i < n → raw i ≡ r → 1 ≤ count_relay raw r n
  unfolding count_relay
  count_relay-one zero i h e = omega arith
  count_relay-one (suc n) i h e = elim (Bool-cases (i == n)) [
    | inl k ↦
        let same : i ≡ n = ground (arith, k) in
        let mine : (raw n == r) ≡ true = rw (sym same) (ground (arith, e)) in
        simp mine (omega arith)
    | inr k ↦ let before = count_relay-one n i in ground (arith, k, before, h, e)
  ]

  count_relay-two :
      (n i j : ℕ)
      → i < n
      → j < n
      → (i == j) ≡ false
      → raw i ≡ r
      → raw j ≡ r
      → 2 ≤ count_relay raw r n
  unfolding count_relay
  count_relay-two zero i j h k d e f = absurd (omega arith)
  count_relay-two (suc n) i j h k d e f = elim (Bool-cases (i == n)) [
    | inl a ↦
        let same : i ≡ n = ground (arith, a) in
        let mine : (raw n == r) ≡ true = rw (sym same) (ground (arith, e)) in
        let other = count_relay-one n j (ground (arith, a, d, k)) f in
        simp mine (omega (arith, other))
    | inr a ↦ elim (Bool-cases (j == n)) [
      | inl b ↦
          let same : j ≡ n = ground (arith, b) in
          let mine : (raw n == r) ≡ true = rw (sym same) (ground (arith, f)) in
          let other = count_relay-one n i (ground (arith, b, d, h)) e in
          simp mine (omega (arith, other))
      | inr b ↦
          let before = count_relay-two n i j (ground (arith, a, h)) (ground (arith, b, k)) d e f in
          omega (arith, before)
    ]
  ]

module _ (raw : ℕ → ℕ) (entries : ℕ → ScheduleCfg) (i : ℕ) (h : i < 8) where
  -- The entry `i` gives way to another one.
  abbrev parted : ℕ → Bool
  parted n = leb 1 (raw i) && leb (raw i) n && leb 2 (count_relay raw (raw i) 8)

  conflict_loop-entry :
      (n : ℕ)
      → (conflict_loop raw n entries).0 i
        ≡ (if parted n then record (entries i) { relay = 0 } else entries i)
  unfolding conflict_loop
  conflict_loop-entry zero = let none : parted 0 ≡ false = ground arith in simp none refl
  conflict_loop-entry (suc n) =
      let before = conflict_loop-entry n in
      elim (Bool-cases (raw i == suc n)) [
        | inl e ↦
            let same : count_relay raw (raw i) 8 ≡ count_relay raw (suc n) 8 =
              ap (λ r. count_relay raw r 8) (ground (arith, e)) in
            let not_yet : parted n ≡ false = ground (arith, e) in
            let untouched : (conflict_loop raw n entries).0 i ≡ entries i =
              simp not_yet at before in
            elim (Bool-cases (ltb (count_relay raw (suc n) 8) 2)) [
              | inl one ↦
                  let alone : parted (suc n) ≡ false = ground (arith, same, one, e) in
                  simp (one, alone) untouched
              | inr two ↦
                  let meets : parted (suc n) ≡ true = ground (arith, same, two, e) in
                  let here : (ltb i 8 && (raw i == suc n)) ≡ true = ground (arith, e) in
                  simp (two, meets, here)
                    (ap (λ (c : ScheduleCfg). record c { relay = 0 }) untouched)
            ]
        | inr e ↦
            let same : parted (suc n) ≡ parted n = ground (arith, e) in
            let away : (ltb i 8 && (raw i == suc n)) ≡ false = ground (arith, e) in
            elim (Bool-cases (ltb (count_relay raw (suc n) 8) 2)) [
              | inl one ↦ simp (one, same) before
              | inr two ↦ simp (two, same, away) before
            ]
      ]

count_below : (c : ℕ) → leb 2 c ≡ false → c < 2
count_below c e = ground (arith, e)

-- The test of `parted`, for a relay and its count.
module _ (r c : ℕ) where
  abbrev gives_way : Bool
  gives_way = leb 1 r && leb r 8 && leb 2 c

  gives_way-unset : r ≡ 0 → gives_way ≡ false
  gives_way-unset e = ground (arith, e)

  gives_way-alone : leb 2 c ≡ false → gives_way ≡ false
  gives_way-alone e = ground (arith, e)

  gives_way-shared : (1 ≤ r) × (r ≤ 8) → leb 2 c ≡ true → gives_way ≡ true
  gives_way-shared u e = ground (arith, u, e)

-- The entries before and after the loop over the relays.
module _ (stored : ℕ → Stored) where
  abbrev loaded : ℕ → ScheduleCfg
  loaded i = load_entry (stored i)

  abbrev raw_relay : ℕ → ℕ
  raw_relay i = (loaded i).relay

  entry-cases :
      (i : ℕ)
      → i < 8
      → (((load_schedules stored).0 i).relay ≡ 0)
        ⊎ (((load_schedules stored).0 i ≡ loaded i)
            × (count_relay raw_relay (raw_relay i) 8 < 2)
            × IsUsable (loaded i))
  unfolding load_schedules
  entry-cases i h =
      let e = conflict_loop-entry raw_relay loaded i h 8 in
      elim (load_entry-IsUsable (stored i)) [
        | inl zero_relay ↦
            let stays : parted raw_relay loaded i h 8 ≡ false =
              gives_way-unset (raw_relay i) (count_relay raw_relay (raw_relay i) 8) zero_relay in
            inl (ap (λ (c : ScheduleCfg). c.relay) (simp stays at e) ∙ zero_relay)
        | inr u ↦ elim (Bool-cases (leb 2 (count_relay raw_relay (raw_relay i) 8))) [
          | inl two ↦
              let goes : parted raw_relay loaded i h 8 ≡ true =
                gives_way-shared (raw_relay i) (count_relay raw_relay (raw_relay i) 8) u.relay
                  two in
              inl (ap (λ (c : ScheduleCfg). c.relay) (simp goes at e))
          | inr one ↦
              let stays : parted raw_relay loaded i h 8 ≡ false =
                gives_way-alone (raw_relay i) (count_relay raw_relay (raw_relay i) 8) one in
              inr (simp stays at e, count_below (count_relay raw_relay (raw_relay i) 8) one, u)
        ]
      ]

  relay-cases :
      (j : ℕ)
      → j < 8
      → (((load_schedules stored).0 j).relay ≡ 0)
        ⊎ (((load_schedules stored).0 j).relay ≡ raw_relay j)
  relay-cases j k = elim (entry-cases j k) [
    | inl none ↦ inl none
    | inr (e, one, u) ↦ inr (ap (λ (c : ScheduleCfg). c.relay) e)
  ]

  module _ (i j : ℕ) (h : i < 8) (k : j < 8) (other : (i == j) ≡ false) where
    -- After the schedules are loaded from any stored values, each of the eight entries is out of
    -- use (relay 0), or it is sound and no other entry has its relay: the relay is 1 to 8; in
    -- repeat mode 1 <= on_min < period_min < 1440; in clock mode both times have a minute of the
    -- day below 1440 and an offset of less than 1440 minutes either way.
    pub load_schedules-IsUsable :
        (((load_schedules stored).0 i).relay ≡ 0)
        ⊎ (IsUsable ((load_schedules stored).0 i)
            × ((((load_schedules stored).0 j).relay == ((load_schedules stored).0 i).relay)
                ≡ false))
    load_schedules-IsUsable = elim (entry-cases i h) [
      | inl none ↦ inl none
      | inr (e, one, u) ↦
          let mine = ap (λ (c : ScheduleCfg). c.relay) e in
          let two = count_relay-two raw_relay (raw_relay i) 8 i j h k other refl in
          inr (subst IsUsable (sym e) u, ground (arith, mine, one, two, u.relay, relay-cases j k))
    ]
