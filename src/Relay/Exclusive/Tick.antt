-- ===== src/Relay/Exclusive/Tick.antt =====
-- relay_ctrl_tick() keeps the interlock: no timer ever puts both coils of a pair on.
use signalk_esp_os_8relay.Base.{ℕ, suc, ◌<◌, true, false, ◌&&◌, ◌≡◌, inl, inr, sym, arith}
use signalk_esp_os_8relay.Base.Bits.{test}
use mathlib.Core.Path.{subst}
use signalk_esp_os_8relay.Relay.State.{Hw, Ctrl}
use signalk_esp_os_8relay.Relay.Tick.{
  dead_time_over, may_fire, end_pulses, end_limits, fire_pending, save_when_due, tick, ended,
  expired,
}
use signalk_esp_os_8relay.Relay.Pairs.{Paired, WellPaired, partner_in, partner_test}
use signalk_esp_os_8relay.Relay.Fire.{end_pulses-Masks, end_limits-Masks, save_when_due-Masks}
use signalk_esp_os_8relay.Relay.FireWaiting.{due, NotFired, Fired, fire_pending-cases}
use package.signalk_esp_os_8relay.Relay.Exclusive.{Exclusive, Exclusive-off}
use package.signalk_esp_os_8relay.Relay.Exclusive.Switch.{Interlocked, Masks-Interlocked}

module _ {World : Type 0} (now : ℕ) {s : Ctrl World} (inv : Interlocked s) where
  -- What fires waits, and has no partner that is on.
  pub due-safe :
      (j : ℕ)
      → j < 8
      → due now s j ≡ true
      → (test s.pending_on j ≡ true)
        × (dead_time_over now s j ≡ true)
        × (partner_in s.mask (s.cfg.relays j).interlock ≡ false)
  unfolding dead_time_over may_fire
  due-safe j h d = ground (arith, partner_test s.cfg inv.pairs s.mask j h)

  due-partner : (i p : ℕ) → i < 8 → Paired s.cfg i p → due now s i ≡ true → test s.mask p ≡ false
  due-partner i p h e d =
      let off : partner_in s.mask (suc p) ≡ false = rw e at (due-safe i h d).2 in off

  module _ {s' : Ctrl World} (f : Fired now s s') where
    fired-coils : (i p : ℕ) → i < 8 → Paired s.cfg i p → (test s'.mask i && test s'.mask p) ≡ false
    fired-coils i p h e =
        let hp = inv.pairs.in_range i p h e in
        let back = inv.pairs.mutual_ i p h e in
        ground (
          arith,
          f.coils i h,
          f.coils p hp,
          inv.exclusive.coils i p h e,
          inv.exclusive.waits i p h e,
          due-partner i p h e,
          due-partner p i hp back,
          due-safe i h,
          due-safe p hp,
        )

    fired-waits :
        (i p : ℕ)
        → i < 8
        → Paired s.cfg i p
        → (test s'.pending_on i && test s'.pending_on p) ≡ false
    fired-waits i p h e = ground (
      arith,
      f.waiting i h,
      f.waiting p (inv.pairs.in_range i p h e),
      inv.exclusive.waits i p h e,
    )

    fired-idle : (i : ℕ) → i < 8 → (test s'.pending_on i && test s'.mask i) ≡ false
    fired-idle i h =
        ground (arith, f.waiting i h, f.coils i h, inv.exclusive.idle i h, due-safe i h)

    Fired-Interlocked : Interlocked s'
    Fired-Interlocked = record {
      pairs = subst WellPaired (sym f.cfg) inv.pairs;
      exclusive =
          subst (λ c. Exclusive c s'.mask s'.pending_on) (sym f.cfg)
            (record { coils = fired-coils; waits = fired-waits; idle = fired-idle });
    }

  module _ {s' : Ctrl World} (f : NotFired now s s') where
    NotFired-Interlocked : Interlocked s'
    NotFired-Interlocked = record {
      pairs = subst WellPaired (sym f.cfg) inv.pairs;
      exclusive =
          subst (λ c. Exclusive c s'.mask s'.pending_on) (sym f.cfg)
            (record {
              coils = λ i p h e. rw f.coils (inv.exclusive.coils i p h e);
              waits = λ i p h e. ground (
                arith,
                f.waiting i h,
                f.waiting p (inv.pairs.in_range i p h e),
                inv.exclusive.waits i p h e,
              );
              idle = λ i h. rw f.coils (ground (arith, f.waiting i h, inv.exclusive.idle i h));
            });
    }

module _ {World : Type 0} (hw : Hw World) (now : ℕ) {s : Ctrl World} (inv : Interlocked s) where
  end_pulses-Interlocked : Interlocked (end_pulses hw now s)
  end_pulses-Interlocked = elim (end_pulses-Masks hw now s) [
    | inl m ↦ Masks-Interlocked m inv.pairs inv.exclusive
    | inr m ↦ Masks-Interlocked m inv.pairs (Exclusive-off inv.exclusive (ended now s))
  ]

  end_limits-Interlocked : Interlocked (end_limits hw now s)
  end_limits-Interlocked = elim (end_limits-Masks hw now s) [
    | inl m ↦ Masks-Interlocked m inv.pairs inv.exclusive
    | inr m ↦ Masks-Interlocked m inv.pairs (Exclusive-off inv.exclusive (expired now s))
  ]

  fire_pending-Interlocked : Interlocked (fire_pending hw now s).0
  fire_pending-Interlocked = elim (fire_pending-cases hw now s) [
    | inl r ↦ NotFired-Interlocked now inv r.0
    | inr f ↦ Fired-Interlocked now inv f
  ]

  save_when_due-Interlocked : Interlocked (save_when_due hw now s)
  save_when_due-Interlocked =
      Masks-Interlocked (save_when_due-Masks hw now s) inv.pairs inv.exclusive

module _ {World : Type 0} (hw : Hw World) {s : Ctrl World} where
  -- If the interlock is intact (every effective partner is another relay of the board that names
  -- this one back; of two partners at most one coil is on and at most one waits; no relay that
  -- waits is on), it is so after a tick, whichever timers run out together and whether the writes
  -- of the expander succeed or fail.
  pub tick-Interlocked : Interlocked s → Interlocked (tick hw s).0
  unfolding tick
  tick-Interlocked inv =
      let now = hw.now_ms s.world in
      save_when_due-Interlocked hw now (
        fire_pending-Interlocked hw now
          (end_limits-Interlocked hw now (end_pulses-Interlocked hw now inv)))
