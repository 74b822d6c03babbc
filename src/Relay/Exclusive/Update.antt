-- ===== src/Relay/Exclusive/Update.antt =====
-- relay_ctrl_update_config() and the interlock: settings that pair relays anew part the coils, but
-- they let two relays wait that have just become partners.
use signalk_esp_os_8relay.Base.{
  ℕ, ◌⊎◌, ◌<◌, true, false, ◌&&◌, ◌≡◌, inl, inr, refl, sym, ap, ◌∙◌, arith,
}
use mathlib.Core.Path.{subst}
use signalk_esp_os_8relay.Base.Bits.{test, clear, test-clear, test-zero}
use signalk_esp_os_8relay.DeviceConfig.{Config}
use signalk_esp_os_8relay.Relay.State.{Hw, Ctrl}
use signalk_esp_os_8relay.Relay.Update.{adopt_config, part_conflicts, update_config}
use signalk_esp_os_8relay.Relay.Tick.{
  dead_time_over, may_fire, fire_pending, tick, ended, expired, end_pulses, end_limits,
  save_when_due,
}
use signalk_esp_os_8relay.Relay.Pairs.{
  Paired, WellPaired, partner_in, partner_test, clear_conflicts-conflict,
}
use signalk_esp_os_8relay.Relay.Adopt.{adopt_config-Adopted, conflict, part_conflicts-cases}
use signalk_esp_os_8relay.Relay.Fire.{fire_loop-fired, save_when_due-Masks}
use signalk_esp_os_8relay.Relay.FireWaiting.{due, fire_pending-cases}
use package.signalk_esp_os_8relay.Relay.Exclusive.{Exclusive}
use package.signalk_esp_os_8relay.Relay.Exclusive.Switch.{Interlocked}

-- No two relays that `cfg` pairs are both waiting.
abbrev pub NoneWaitTogether : Config → ℕ → Type 0
NoneWaitTogether cfg pending =
    (i p : ℕ) → i < 8 → Paired cfg i p → (test pending i && test pending p) ≡ false

module _ {World : Type 0} (hw : Hw World) (s : Ctrl World) (pairs : WellPaired s.cfg) where
  -- Which coils are named: those whose partner is on too.
  conflict_of :
      (i p : ℕ)
      → i < 8
      → Paired s.cfg i p
      → test (conflict hw s) i ≡ (test s.mask i && test s.mask p)
  conflict_of i p h e =
      clear_conflicts-conflict s.cfg pairs s.mask i h
      ∙ ap (λ k. test s.mask i && partner_in s.mask k) e

  module _ (waits : NoneWaitTogether s.cfg s.pending_on)
      (idle : (i : ℕ) → i < 8 → (test s.pending_on i && test s.mask i) ≡ false) where
    conflict_free : conflict hw s ≡ 0 → Exclusive s.cfg s.mask s.pending_on
    conflict_free none = record {
      coils = λ i p h e. sym (conflict_of i p h e) ∙ (ap (λ m. test m i) none ∙ test-zero i);
      waits = waits;
      idle = idle;
    }

    conflict_parted :
        Exclusive s.cfg (clear s.mask (conflict hw s)) (clear s.pending_on (conflict hw s))
    conflict_parted =
        let c = conflict hw s in
        record {
          coils = λ i p h e.
              ground (arith, test-clear s.mask c i, test-clear s.mask c p, conflict_of i p h e);
          waits = λ i p h e.
              ground
                (arith, test-clear s.pending_on c i, test-clear s.pending_on c p, waits i p h e);
          idle =
              λ i h. ground (arith, test-clear s.pending_on c i, test-clear s.mask c i, idle i h);
        }

    interlocked :
        (s' : Ctrl World)
        → s'.cfg ≡ s.cfg
        → {m w : ℕ} → s'.mask ≡ m
        → s'.pending_on ≡ w
        → Exclusive s.cfg m w
        → Interlocked s'
    interlocked s' c {m} {w} e f excl = record {
      pairs = subst WellPaired (sym c) pairs;
      exclusive = rw e (rw f (subst (λ k. Exclusive k m w) (sym c) excl));
    }

    -- The coils of pairs are parted, unless the expander refused the write.
    part_conflicts-Interlocked :
        Interlocked (part_conflicts hw s)
        ⊎ (((part_conflicts hw s).i2c_fault ≡ true) × ((part_conflicts hw s).mask ≡ s.mask))
    part_conflicts-Interlocked = elim (part_conflicts-cases hw s) [
      | inl (inl none, n) ↦
          inl (interlocked (part_conflicts hw s) n.cfg n.coils n.waiting (conflict_free none))
      | inl (inr fault, n) ↦ inr (fault, n.coils)
      | inr p ↦ inl (interlocked (part_conflicts hw s) p.cfg p.coils p.waiting conflict_parted)
    ]

module _ {World : Type 0} (hw : Hw World) {s : Ctrl World} where
  -- If the interlock is intact, the new settings pair relays soundly, and no two relays that they
  -- pair are both waiting out their dead times, then the interlock is intact (every effective
  -- partner is another relay of the board that names this one back; of two partners at most one
  -- coil is on and at most one waits; no relay that waits is on) after the new settings are taken
  -- over, or else the fault is raised and no coil has changed.
  pub update_config-Interlocked :
      (cfg : Config)
      → Interlocked s
      → WellPaired cfg
      → NoneWaitTogether cfg s.pending_on
      → Interlocked (update_config hw cfg s).0
        ⊎ (((update_config hw cfg s).0.i2c_fault ≡ true)
            × ((update_config hw cfg s).0.mask ≡ s.mask))
  unfolding update_config
  update_config-Interlocked cfg inv pairs waits =
      let a = adopt_config-Adopted hw cfg s in
      let s1 = adopt_config hw cfg s in
      let pairs1 : WellPaired s1.cfg = subst WellPaired (sym a.settings) pairs in
      let waits1 : NoneWaitTogether s1.cfg s1.pending_on =
        rw a.waiting (subst (λ c. NoneWaitTogether c s.pending_on) (sym a.settings) waits) in
      let idle1 : (i : ℕ) → i < 8 → (test s1.pending_on i && test s1.mask i) ≡ false =
        λ i h. rw (a.waiting, a.coils) (inv.exclusive.idle i h) in
      elim (part_conflicts-Interlocked hw s1 pairs1 waits1 idle1) [
        | inl good ↦ inl good
        | inr (fault, same) ↦ inr (fault, same ∙ a.coils)
      ]

module _ {World : Type 0} (hw : Hw World) (s : Ctrl World) where
  end_pulses_none : (now : ℕ) → ended now s ≡ 0 → end_pulses hw now s ≡ s
  unfolding end_pulses
  end_pulses_none now e = rw e refl

  end_limits_none : (now : ℕ) → expired now s ≡ 0 → end_limits hw now s ≡ s
  unfolding end_limits
  end_limits_none now e = rw e refl

  save_when_due-fault : (now : ℕ) → (save_when_due hw now s).i2c_fault ≡ s.i2c_fault
  unfolding save_when_due
  save_when_due-fault now = ground arith

  module _ (now i p : ℕ) (pairs : WellPaired s.cfg) (h : i < 8) (e : Paired s.cfg i p) where
    due_when_off :
        (j k : ℕ)
        → j < 8
        → Paired s.cfg j k
        → test s.mask k ≡ false
        → dead_time_over now s j ≡ true
        → due now s j ≡ true
    unfolding may_fire
    due_when_off j k hj f off over =
        let none : partner_in s.mask (s.cfg.relays j).interlock ≡ false = rw f off in
        ground (arith, partner_test s.cfg pairs s.mask j hj)

    fire_both :
        (test s.mask i ≡ false) × (test s.mask p ≡ false)
        → (dead_time_over now s i ≡ true) × (dead_time_over now s p ≡ true)
        → ((fire_pending hw now s).0.i2c_fault ≡ true)
          ⊎ ((test (fire_pending hw now s).0.mask i ≡ true)
              × (test (fire_pending hw now s).0.mask p ≡ true))
    fire_both off over =
        let hp = pairs.in_range i p h e in
        let back = pairs.mutual_ i p h e in
        let due_i = due_when_off i p h e off.1 over.0 in
        let due_p = due_when_off p i hp back off.0 over.1 in
        elim (fire_pending-cases hw now s) [
          | inl (n, z, inl none) ↦
              ground (arith, fire_loop-fired now s 8 i, ap (λ m. test m i) none, test-zero i)
          | inl (n, z, inr fault) ↦ inl fault
          | inr f ↦ inr (ground (arith, f.coils i h), ground (arith, f.coils p hp))
        ]

module _ {World : Type 0} (hw : Hw World) (s : Ctrl World) where
  -- Under settings that pair relays soundly, when the dead times of two relays that are partners
  -- have run out together, both were off, and no other timer ends in this tick, the tick switches
  -- both coils on, unless the expander refuses the write.
  pub tick_both_waiting :
      (i p : ℕ)
      → WellPaired s.cfg
      → i < 8
      → Paired s.cfg i p
      → (test s.mask i ≡ false) × (test s.mask p ≡ false)
      → (dead_time_over (hw.now_ms s.world) s i ≡ true)
        × (dead_time_over (hw.now_ms s.world) s p ≡ true)
      → (ended (hw.now_ms s.world) s ≡ 0) × (expired (hw.now_ms s.world) s ≡ 0)
      → ((tick hw s).0.i2c_fault ≡ true)
        ⊎ ((test (tick hw s).0.mask i ≡ true) × (test (tick hw s).0.mask p ≡ true))
  unfolding tick
  tick_both_waiting i p pairs h e off over none =
      let now = hw.now_ms s.world in
      let s3 = (fire_pending hw now s).0 in
      rw (end_pulses_none hw s now none.0) (
        rw (end_limits_none hw s now none.1) (
          rw (save_when_due-fault hw s3 now, (save_when_due-Masks hw now s3).coils)
            (fire_both hw s now i p pairs h e off over)))
