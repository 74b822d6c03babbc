-- ===== src/Relay/Limits.antt =====
-- What each operation leaves of the running maximum on-times.
use signalk_esp_os_8relay.Base.{
  ℕ, ◌<◌, ◌==◌, if◌then◌else◌, Bool, true, false, ◌≡◌, ◌⊎◌, inl, inr, ap, ◌∙◌, Bool-cases, bit_or,
  arith,
}
use signalk_esp_os_8relay.Base.Bits.{test, bit, not8, clear}
use signalk_esp_os_8relay.Board.{ok, fail, Fault}
use signalk_esp_os_8relay.Relay.State.{
  Hw, Ctrl, Source, is_momentary, hold_mask, interlock_partner_bit, max_on_ms,
}
use signalk_esp_os_8relay.Relay.Commit.{commit, track_max_on}
use signalk_esp_os_8relay.Relay.Switch.{start_pulse, switch_off, switch_over, switch_on, fail_safe}
use signalk_esp_os_8relay.Relay.Tick.{end_pulses, end_limits, save_when_due, ended, expired}
use signalk_esp_os_8relay.Relay.Frame.{
  limit_runs, commit-Keeps, commit-ok, commit-fail, track_max_on-Tracks, track_max_on-limited,
  Status-cases,
}
use signalk_esp_os_8relay.Relay.Effects.{safe_target}

-- The timers as track_max_on_locked() leaves them: a relay that is on and has a maximum runs one,
-- anew if it was off or `restart` names it.
abbrev pub LimitsTracked : {World : Type 0} → Ctrl World → Ctrl World → ℕ → Type 0
LimitsTracked s s' restart =
    (j : ℕ)
    → j < 8
    → test s'.limited j
      ≡ limit_runs (test s'.mask j) (max_on_ms s'.cfg j == 0) (test s.mask j) (test restart j)
          (test s.limited j)

module _ {World : Type 0} (hw : Hw World) (s s0 : Ctrl World) (restart : ℕ) where
  -- Any state with the timers of `s`, tracked.
  pub tracked : s0.limited ≡ s.limited → LimitsTracked s (track_max_on hw s0 s.mask restart) restart
  tracked e j h =
      let t = track_max_on-Tracks hw s0 s.mask restart in
      track_max_on-limited hw s0 s.mask restart j h
      ∙ ground (
        arith,
        ap (λ m. test m j) t.mask,
        ap (λ c. max_on_ms c j == 0) t.cfg,
        ap (λ m. test m j) e,
      )

module _ {World : Type 0} (hw : Hw World) (s : Ctrl World) where
  pub switch_off-limits :
      (i : ℕ) → (switch_off hw i s).1 ≡ ok → LimitsTracked s (switch_off hw i s).0 0
  unfolding switch_off
  switch_off-limits i done j h =
      let s0 = record s { pending_on = clear s.pending_on (bit i) } in
      let target = clear s.mask (bit i) in
      let r = (commit hw s0 target).0 in
      ground (
        arith,
        tracked hw s (record r { pulsing = clear r.pulsing (bit i) }) 0
            (commit-Keeps hw s0 target).limited j h,
      )

  pub switch_off-same :
      (i : ℕ) (e : Fault)
      → (switch_off hw i s).1 ≡ fail e
      → (switch_off hw i s).0.limited ≡ s.limited
  unfolding switch_off
  switch_off-same i e bad =
      let s0 = record s { pending_on = clear s.pending_on (bit i) } in
      ground (arith, commit-Keeps hw s0 (clear s.mask (bit i)))

  pub switch_over-limits :
      (i : ℕ) (src : Source)
      → (switch_over hw i src s).1 ≡ ok
      → LimitsTracked s (switch_over hw i src s).0 0
  unfolding switch_over
  switch_over-limits i src done j h =
      let partner = interlock_partner_bit s.cfg i in
      let target = clear s.mask partner in
      let r = (commit hw s target).0 in
      let s2 = record r {
        pulsing = clear r.pulsing partner;
        pending_on = clear r.pending_on partner;
      } in
      ground (arith, tracked hw s s2 0 (commit-Keeps hw s target).limited j h)

  pub switch_over-same :
      (i : ℕ) (src : Source) (e : Fault)
      → (switch_over hw i src s).1 ≡ fail e
      → (switch_over hw i src s).0.limited ≡ s.limited
  unfolding switch_over
  switch_over-same i src e bad =
      ground (arith, commit-Keeps hw s (clear s.mask (interlock_partner_bit s.cfg i)))

  start_pulse-limited :
      (b : Bool) (now i : ℕ) (r : Ctrl World)
      → r.limited ≡ s.limited
      → (if b then start_pulse now i r else r).limited ≡ s.limited
  start_pulse-limited true now i r e = unfold start_pulse in e
  start_pulse-limited false now i r e = e

  pub switch_on-limits :
      (i : ℕ) → (switch_on hw i s).1 ≡ ok → LimitsTracked s (switch_on hw i s).0 (bit i)
  unfolding switch_on
  switch_on-limits i done j h =
      let target = bit_or s.mask (bit i) in
      let r = (commit hw s target).0 in
      let s2 = if is_momentary r.cfg i then start_pulse (hw.now_ms r.world) i r else r in
      ground (
        arith,
        tracked hw s s2 (bit i)
            (start_pulse-limited (is_momentary r.cfg i) (hw.now_ms r.world) i r
              (commit-Keeps hw s target).limited)
            j h,
      )

  pub switch_on-same :
      (i : ℕ) (e : Fault) → (switch_on hw i s).1 ≡ fail e → (switch_on hw i s).0.limited ≡ s.limited
  unfolding switch_on
  switch_on-same i e bad = ground (arith, commit-Keeps hw s (bit_or s.mask (bit i)))

  pub fail_safe-limits :
      (commit hw s (safe_target hw s)).1 ≡ ok → LimitsTracked s (fail_safe hw s) 0
  unfolding fail_safe
  fail_safe-limits done j h =
      let r = (commit hw s (safe_target hw s)).0 in
      ground (
        arith,
        tracked hw s (record r { pulsing = clear r.pulsing (not8 (hold_mask s.cfg)) }) 0
            (commit-Keeps hw s (safe_target hw s)).limited j h,
      )

  pub fail_safe-same :
      (e : Fault)
      → (commit hw s (safe_target hw s)).1 ≡ fail e
      → (fail_safe hw s).limited ≡ s.limited
  unfolding fail_safe
  fail_safe-same e bad = ground (arith, commit-Keeps hw s (safe_target hw s))

  -- Ending pulses leaves the maximum on-times alone; ending these drops the ones that are over
  -- together with their coils.
  pub end_pulses-limits : (now : ℕ) → (end_pulses hw now s).limited ≡ s.limited
  unfolding end_pulses
  end_pulses-limits now = ground (arith, commit-Keeps hw s (clear s.mask (ended now s)))

  pub end_limits-limits :
      (now : ℕ)
      → (((end_limits hw now s).limited ≡ s.limited) × ((end_limits hw now s).mask ≡ s.mask))
        ⊎ (((end_limits hw now s).limited ≡ clear s.limited (expired now s))
            × ((end_limits hw now s).mask ≡ clear s.mask (expired now s)))
  unfolding end_limits
  end_limits-limits now =
      let target = clear s.mask (expired now s) in
      let kept = commit-Keeps hw s target in
      elim (Bool-cases (expired now s == 0)) [
        | inl none ↦ inl (ground (arith, none))
        | inr some_over ↦ elim (Status-cases (commit hw s target).1) [
          | inl done ↦ inr (ground (arith, kept, commit-ok hw s target))
          | inr (e, bad) ↦ inl (ground (arith, kept, commit-fail hw s target e))
        ]
      ]

  pub save_when_due-limits : (now : ℕ) → (save_when_due hw now s).limited ≡ s.limited
  unfolding save_when_due
  save_when_due-limits now = ground arith
