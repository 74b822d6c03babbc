-- ===== src/Relay/Exclusive/Switch.antt =====
-- set_or_toggle() and relay_ctrl_sk_lost() keep the interlock, whether their writes succeed or not.
use signalk_esp_os_8relay.Base.{
  ℕ, zero, suc, ◌⊎◌, ◌-◌, ◌<◌, Bool, true, false, ◌&&◌, ◌≡◌, inl, inr, refl, sym, Bool-cases,
  bit_or, leb, arith,
}
use mathlib.Core.Path.{subst}
use signalk_esp_os_8relay.Base.Bits.{test, bit, not8, clear}
use signalk_esp_os_8relay.Relay.State.{Hw, Ctrl, Source, hold_mask}
use signalk_esp_os_8relay.Relay.Commit.{commit}
use signalk_esp_os_8relay.Relay.Notify.{is_channel}
use signalk_esp_os_8relay.Relay.Switch.{
  Request, switch_off, switch_over, switch_on, drive, coil_wanted, set_or_toggle, fail_safe,
  sk_lost,
}
use signalk_esp_os_8relay.Relay.Frame.{Status-cases}
use signalk_esp_os_8relay.Relay.Pairs.{
  Paired, WellPaired, partner_in, partner_test, partner_bit-Paired,
}
use signalk_esp_os_8relay.Relay.Effects.{
  Masks, switch_off-ok, switch_off-fail, switch_over-ok, switch_over-fail, switch_on-ok,
  switch_on-fail, safe_target, fail_safe-ok, fail_safe-fail,
}
use package.signalk_esp_os_8relay.Relay.Exclusive.{
  Exclusive, Exclusive-clear, Exclusive-cancel, Exclusive-over, Exclusive-on,
}

-- The settings pair relays soundly, and the coils respect the pairs.
pub record Interlocked {World : Type 0} (s : Ctrl World) : Type 0 where
  pub pairs : WellPaired s.cfg
  pub exclusive : Exclusive s.cfg s.mask s.pending_on

partner_on-cases :
    (m k : ℕ) → ((p : ℕ) × (k ≡ suc p) × (test m p ≡ true)) ⊎ (partner_in m k ≡ false)
partner_on-cases m zero = inr refl
partner_on-cases m (suc p) = elim (Bool-cases (test m p)) [
  | inl on ↦ inl (p, refl, on)
  | inr off ↦ inr off
]

module _ {World : Type 0} {s s' : Ctrl World} {mask pending pulsing : ℕ} where
  pub Masks-Interlocked :
      Masks s s' mask pending pulsing
      → WellPaired s.cfg
      → Exclusive s.cfg mask pending
      → Interlocked s'
  Masks-Interlocked m pairs excl = record {
    pairs = subst WellPaired (sym m.cfg) pairs;
    exclusive = rw m.coils (rw m.waiting (subst (λ c. Exclusive c mask pending) (sym m.cfg) excl));
  }

module _ {World : Type 0} (hw : Hw World) {s : Ctrl World} (inv : Interlocked s) where
  switch_off-Interlocked : (i : ℕ) → Interlocked (switch_off hw i s).0
  switch_off-Interlocked i = elim (Status-cases (switch_off hw i s).1) [
    | inl done ↦
        Masks-Interlocked (switch_off-ok hw s i done) inv.pairs
          (Exclusive-clear inv.exclusive (bit i) (bit i))
    | inr (e, bad) ↦
        Masks-Interlocked (switch_off-fail hw s i e bad) inv.pairs
          (Exclusive-cancel inv.exclusive (bit i))
  ]

  switch_over-Interlocked :
      (i p : ℕ) (src : Source)
      → i < 8
      → Paired s.cfg i p
      → test s.mask p ≡ true
      → Interlocked (switch_over hw i src s).0
  switch_over-Interlocked i p src h e on = elim (Status-cases (switch_over hw i src s).1) [
    | inl done ↦
        let partner = partner_bit-Paired s.cfg i p (inv.pairs.in_range i p h e) e in
        Masks-Interlocked
          (let m : Masks s (switch_over hw i src s).0 (clear s.mask (bit p))
                (bit_or (clear s.pending_on (bit p)) (bit i)) (clear s.pulsing (bit p)) =
              rw partner at (switch_over-ok hw s i src done) in
            m)
          inv.pairs (Exclusive-over inv.pairs inv.exclusive i p h e on)
    | inr (f, bad) ↦ Masks-Interlocked (switch_over-fail hw s i src f bad) inv.pairs inv.exclusive
  ]

  switch_on-Interlocked :
      (i : ℕ)
      → i < 8
      → test s.pending_on i ≡ false
      → partner_in s.mask (s.cfg.relays i).interlock ≡ false
      → Interlocked (switch_on hw i s).0
  switch_on-Interlocked i h free off = elim (Status-cases (switch_on hw i s).1) [
    | inl done ↦
        Masks-Interlocked (switch_on-ok hw s i done) inv.pairs
          (Exclusive-on inv.pairs inv.exclusive i h free off)
    | inr (e, bad) ↦ Masks-Interlocked (switch_on-fail hw s i e bad) inv.pairs inv.exclusive
  ]

  drive-Interlocked :
      (i : ℕ) (on : Bool) (src : Source) → i < 8 → Interlocked (drive hw i on src s).0
  unfolding drive
  drive-Interlocked i false src h = switch_off-Interlocked i
  drive-Interlocked i true src h =
      rw (partner_test s.cfg inv.pairs s.mask i h)
        (elim (partner_on-cases s.mask (s.cfg.relays i).interlock) [
          | inl (p, e, on) ↦ rw (e, on) (switch_over-Interlocked i p src h e on)
          | inr off ↦ rw off (elim (Bool-cases (test s.pending_on i)) [
            | inl waiting ↦ rw waiting inv
            | inr free ↦ rw free (switch_on-Interlocked i h free off)
          ])
        ])

  fail_safe-Interlocked : Interlocked (fail_safe hw s)
  fail_safe-Interlocked = elim (Status-cases (commit hw s (safe_target hw s)).1) [
    | inl done ↦
        Masks-Interlocked (fail_safe-ok hw s done) inv.pairs
          (Exclusive-clear inv.exclusive (not8 (hold_mask s.cfg)) (not8 (hold_mask s.cfg)))
    | inr (e, bad) ↦
        Masks-Interlocked (fail_safe-fail hw s e bad) inv.pairs
          (Exclusive-cancel inv.exclusive (not8 (hold_mask s.cfg)))
  ]

  -- If the interlock is intact (every effective partner is another relay of the board that names
  -- this one back; of two partners at most one coil is on and at most one waits; no relay that
  -- waits is on), it is so after a command to any relay, from any source, whether the writes of the
  -- expander succeed or fail.
  pub set_or_toggle-Interlocked :
      (channel : ℕ) (request : Request) (src : Source)
      → Interlocked (set_or_toggle hw s channel request src).0
  unfolding set_or_toggle is_channel
  set_or_toggle-Interlocked channel request src =
      elim (Bool-cases (leb 1 channel && leb channel 8)) [
        | inl good ↦
            let h : channel - 1 < 8 = ground arith in
            rw good (drive-Interlocked (channel - 1) (coil_wanted hw s (channel - 1) request) src h)
        | inr bad ↦ rw bad inv
      ]

  -- If the interlock is intact (every effective partner is another relay of the board that names
  -- this one back; of two partners at most one coil is on and at most one waits; no relay that
  -- waits is on), it is so after the fail-safe on the loss of SignalK, whether the writes of the
  -- expander succeed or fail.
  pub sk_lost-Interlocked : Interlocked (sk_lost hw s).0
  unfolding sk_lost
  sk_lost-Interlocked = fail_safe-Interlocked
