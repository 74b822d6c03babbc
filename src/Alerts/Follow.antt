-- ===== src/Alerts/Follow.antt =====
-- The two loops of n2k_alerts_tick(): the alerts follow the inputs, and one channel a tick sends
-- what is due.
use signalk_esp_os_8relay.Base.{
  sym, ◌↔◌, ◌≢◌, ℕ, zero, suc, ◌+◌, ◌-◌, ◌<◌, ◌≤◌, if◌then◌else◌, Bool, true, false, ◌||◌, ◌==◌,
  ltb, leb, Option, none, some, ◌≡◌, refl, ap, ◌∙◌, arith, ◌⊎◌, inl, inr, Bool-cases,
}
use mathlib.Core.Bool.{or-false}
use signalk_esp_os_8relay.DeviceConfig.{InputAlarm}
use signalk_esp_os_8relay.Base.Words.{sub32}
use signalk_esp_os_8relay.Board.{channels}
use signalk_esp_os_8relay.Base.Bits.{test}
use signalk_esp_os_8relay.Alerts.State.{AlertsCfg, Alerts, Chan, same_level, put}
use signalk_esp_os_8relay.Alerts.Tick.{
  wants, follow, begin_clear, raise_alert, mark_due, update_all, first_due, after_messages,
  send_from, send_first, tick,
}

pub same_level_refl : (l : InputAlarm) → same_level l l ≡ true
unfolding same_level
same_level_refl InputAlarm.off = refl
same_level_refl InputAlarm.warn = refl
same_level_refl InputAlarm.alarm = refl
same_level_refl InputAlarm.emergency = refl

-- A channel is on exactly when it is wanted, at the level that is set, after the two `if`s.
follow-same :
    (level : InputAlarm) (want : Bool) (c : Chan)
    → ((follow level want c).active ≡ want)
      × ((want ≡ false) ⊎ (same_level (follow level want c).level level ≡ true))
unfolding follow begin_clear raise_alert
follow-same level false c = elim (Bool-cases c.active) [
  | inl e ↦ simp e (refl, inl refl)
  | inr e ↦ simp e (refl, inl refl)
]
follow-same level true c = elim (Bool-cases c.active) [
  | inl e ↦ elim (Bool-cases (same_level c.level level)) [
    | inl k ↦ simp (e, k) (refl, inr refl)
    | inr k ↦ simp (e, k) (refl, inr (same_level_refl level))
  ]
  | inr e ↦ simp e (refl, inr (same_level_refl level))
]

-- Each alert is on exactly when its input wants it, at the level that is set for the input.
unfoldable pub HasFollowed : Bool → ℕ → Alerts → Type 0
HasFollowed ready mask a =
    (i : ℕ)
    → i < 8
    → ((a.chan i).active ≡ wants a.cfg ready mask i)
      × ((wants a.cfg ready mask i ≡ false) ⊎ (same_level (a.chan i).level (a.cfg.level i) ≡ true))

update_all-HasFollowed :
    (ready : Bool) (mask now : ℕ) (a : Alerts)
    → HasFollowed ready mask (update_all ready mask now a)
unfolding HasFollowed update_all mark_due
update_all-HasFollowed ready mask now a i l =
    let inside : ltb i 8 ≡ true = ground arith in
    simp inside (follow-same (a.cfg.level i) (wants a.cfg ready mask i) (a.chan i))

send_from-HasFollowed :
    (ready : Bool) (mask : ℕ) (a : Alerts) (o : Option ℕ)
    → HasFollowed ready mask a
    → HasFollowed ready mask (send_from a o).0
unfolding HasFollowed send_from put after_messages
send_from-HasFollowed ready mask a none h i l = h i l
send_from-HasFollowed ready mask a (some k) h i l = elim (Bool-cases (k == i)) [
  | inl e ↦ let same : k ≡ i = ground (arith, e) in simp e (rw same (h i l))
  | inr e ↦ simp e (h i l)
]

-- After a tick, each of the eight alerts is as it is wanted.
pub tick-HasFollowed :
    (ready : Bool) (mask now : ℕ) (a : Alerts) → HasFollowed ready mask (tick ready mask now a).0
unfolding tick send_first
tick-HasFollowed ready mask now a =
    let next = update_all ready mask now a in
    send_from-HasFollowed ready mask next (first_due next.chan channels)
      (update_all-HasFollowed ready mask now a)

send_from-cfg : (a : Alerts) (o : Option ℕ) → (send_from a o).0.cfg ≡ a.cfg
unfolding send_from
send_from-cfg a none = refl
send_from-cfg a (some i) = refl

pub tick-cfg : (ready : Bool) (mask now : ℕ) (a : Alerts) → (tick ready mask now a).0.cfg ≡ a.cfg
unfolding tick send_first update_all
tick-cfg ready mask now a =
    let b = update_all ready mask now a in send_from-cfg b (first_due b.chan 8)

pub same_level_sound : (l m : InputAlarm) → same_level l m ≡ true → l ≡ m
unfolding same_level
same_level_sound InputAlarm.off InputAlarm.off e = refl
same_level_sound InputAlarm.warn InputAlarm.warn e = refl
same_level_sound InputAlarm.alarm InputAlarm.alarm e = refl
same_level_sound InputAlarm.emergency InputAlarm.emergency e = refl
same_level_sound InputAlarm.off InputAlarm.warn e = cc
same_level_sound InputAlarm.off InputAlarm.alarm e = cc
same_level_sound InputAlarm.off InputAlarm.emergency e = cc
same_level_sound InputAlarm.warn InputAlarm.off e = cc
same_level_sound InputAlarm.warn InputAlarm.alarm e = cc
same_level_sound InputAlarm.warn InputAlarm.emergency e = cc
same_level_sound InputAlarm.alarm InputAlarm.off e = cc
same_level_sound InputAlarm.alarm InputAlarm.warn e = cc
same_level_sound InputAlarm.alarm InputAlarm.emergency e = cc
same_level_sound InputAlarm.emergency InputAlarm.off e = cc
same_level_sound InputAlarm.emergency InputAlarm.warn e = cc
same_level_sound InputAlarm.emergency InputAlarm.alarm e = cc

-- What an alert that is up stands on: alerts are enabled, the bank of the inputs is usable, the
-- inputs are ready, a severity is set for the input, and the input is on.
abbrev pub AllSay : AlertsCfg → Bool → ℕ → ℕ → Type 0
AllSay cfg ready mask i =
    (cfg.enabled ≡ true)
    × (cfg.inputs_on ≡ true)
    × (ready ≡ true)
    × (cfg.level i ≢ InputAlarm.off)
    × (test mask i ≡ true)

wants_iff :
    (cfg : AlertsCfg) (ready : Bool) (mask i : ℕ)
    → (wants cfg ready mask i ≡ true) ↔ AllSay cfg ready mask i
unfolding wants
wants_iff cfg ready mask i = (
  λ e. (
    ground (arith, e),
    ground (arith, e),
    ground (arith, e),
    (λ off.
        let same : same_level (cfg.level i) InputAlarm.off ≡ true =
          rw off (same_level_refl InputAlarm.off) in
        absurd (ground (arith, e, same))),
    ground (arith, e),
  ),
  λ s. elim (Bool-cases (same_level (cfg.level i) InputAlarm.off)) [
    | inl e ↦ absurd (s.3 (same_level_sound (cfg.level i) InputAlarm.off e))
    | inr e ↦ ground (arith, e, s.0, s.1, s.2, s.4)
  ],
)

-- After a tick, the alert of each of the eight inputs is active exactly when alerts are enabled,
-- the input bank is usable, the inputs are ready, a severity is set for the input and the input is
-- on; an alert that is active has that severity. The state before the tick can be any.
pub tick-active :
    (ready : Bool) (mask now : ℕ) (a : Alerts) (i : ℕ)
    → i < 8
    → ((((tick ready mask now a).0.chan i).active ≡ true) ↔ AllSay a.cfg ready mask i)
      × ((((tick ready mask now a).0.chan i).active ≡ false)
          ⊎ (((tick ready mask now a).0.chan i).level ≡ a.cfg.level i))
unfolding HasFollowed
tick-active ready mask now a i h =
    let next = (tick ready mask now a).0 in
    let (on, level) = tick-HasFollowed ready mask now a i h in
    let same = tick-cfg ready mask now a in
    let is : (next.chan i).active ≡ wants a.cfg ready mask i =
      on ∙ ap (λ (cfg : AlertsCfg). wants cfg ready mask i) same in
    let iff = wants_iff a.cfg ready mask i in
    (
      (λ e. iff.0 (sym is ∙ e), λ s. is ∙ iff.1 s),
      elim level [
        | inl e ↦ inl (on ∙ e)
        | inr e ↦ inr (same_level_sound _ _ e ∙ ap (λ (cfg : AlertsCfg). cfg.level i) same)
      ],
    )

-- Something is due on the channel.
abbrev pub is_due : Chan → Bool
is_due c = c.text_due || c.status_due

-- The channels below `n` on which something is due.
unfoldable pub due_count : (ℕ → Chan) → ℕ → ℕ
due_count chan zero = 0
due_count chan (suc n) = due_count chan n + (if is_due (chan n) then 1 else 0)

first_due-none : (chan : ℕ → Chan) (n : ℕ) → first_due chan n ≡ none → due_count chan n ≡ 0
unfolding first_due due_count
first_due-none chan zero h = refl
first_due-none chan (suc n) h = ground (arith, first_due-none chan n, h)

first_due-some :
    (chan : ℕ → Chan) (n i : ℕ) → first_due chan n ≡ some i → (i < n) × (is_due (chan i) ≡ true)
unfolding first_due
first_due-some chan zero i h = cc
first_due-some chan (suc n) i h = ground (arith, first_due-some chan n i, h)

module _ (chan : ℕ → Chan) (i : ℕ) (c : Chan) where
  due_count-put_above : (n : ℕ) → n ≤ i → due_count (put i c chan) n ≡ due_count chan n
  unfolding due_count put
  due_count-put_above zero h = refl
  due_count-put_above (suc n) h =
      let other : (i == n) ≡ false = ground arith in
      simp (other, due_count-put_above n (omega arith)) refl

  due_count-put :
      (n : ℕ)
      → is_due (chan i) ≡ true
      → is_due c ≡ false
      → i < n
      → suc (due_count (put i c chan) n) ≡ due_count chan n
  unfolding due_count put
  due_count-put zero d e h = omega arith
  due_count-put (suc n) d e h = elim (Bool-cases (i == n)) [
    | inl k ↦ ground (arith, due_count-put_above n, k)
    | inr k ↦ ground (arith, due_count-put n d e, k)
  ]

due_count-same :
    (chan chan' : ℕ → Chan) (n : ℕ)
    → ((i : ℕ) → i < n → chan i ≡ chan' i)
    → due_count chan n ≡ due_count chan' n
unfolding due_count
due_count-same chan chan' zero h = refl
due_count-same chan chan' (suc n) h =
    rw (due_count-same chan chan' n (λ i l. h i (omega arith)), h n (omega arith)) refl

send_from-due_count :
    (a : Alerts) (o : Option ℕ)
    → first_due a.chan 8 ≡ o
    → due_count ((send_from a o).0.chan) 8 ≡ due_count a.chan 8 - 1
unfolding send_from after_messages
send_from-due_count a none h = omega (arith, first_due-none a.chan 8 h)
send_from-due_count a (some i) h =
    let (inside, due) = first_due-some a.chan 8 i h in
    let fewer = due_count-put a.chan i (after_messages (a.chan i)) 8 due refl inside in
    omega (arith, fewer)

follow-settled :
    (level : InputAlarm) (want : Bool) (c : Chan)
    → c.active ≡ want
    → (want ≡ false) ⊎ (same_level c.level level ≡ true)
    → follow level want c ≡ c
unfolding follow
follow-settled level false c h e = simp h refl
follow-settled level true c h (inl e) = cc
follow-settled level true c h (inr e) = simp (h, e) refl

mark_due-between_periods : (c : Chan) → mark_due false false c ≡ c
unfolding mark_due
mark_due-between_periods c =
    λ k. record c { status_due = or-false c.status_due k; text_due = or-false c.text_due k }

update_all-settled :
    (ready : Bool) (mask now : ℕ) (a : Alerts)
    → HasFollowed ready mask a
    → sub32 now a.status_at < 1000
    → sub32 now a.text_at < 10000
    → (i : ℕ) → i < 8
    → (update_all ready mask now a).chan i ≡ a.chan i
unfolding HasFollowed update_all
update_all-settled ready mask now a h s t i l =
    let inside : ltb i 8 ≡ true = ground arith in
    let status : leb 1000 (sub32 now a.status_at) ≡ false = ground arith in
    let text : leb 10000 (sub32 now a.text_at) ≡ false = ground arith in
    let (on, level) = h i l in
    simp
      (
        inside,
        status,
        text,
        follow-settled (a.cfg.level i) (wants a.cfg ready mask i) (a.chan i) on level,
      )
      (mark_due-between_periods (a.chan i))

-- While the alerts have followed the inputs and neither period is over, a tick lowers the number of
-- channels that have something to send by one, so that after at most eight such ticks nothing is
-- due.
pub tick-due_count :
    (ready : Bool) (mask now : ℕ) (a : Alerts)
    → HasFollowed ready mask a
    → sub32 now a.status_at < 1000
    → sub32 now a.text_at < 10000
    → due_count (tick ready mask now a).0.chan 8 ≡ due_count a.chan 8 - 1
unfolding tick send_first
tick-due_count ready mask now a h s t =
    let next = update_all ready mask now a in
    send_from-due_count next (first_due next.chan channels) refl
    ∙ ap (λ k. k - 1)
        (due_count-same next.chan a.chan 8 (update_all-settled ready mask now a h s t))
