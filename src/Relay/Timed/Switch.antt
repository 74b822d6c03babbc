-- ===== src/Relay/Timed/Switch.antt =====
-- set_or_toggle() and relay_ctrl_sk_lost() keep the timers.
use signalk_esp_os_8relay.Base.{
  ℕ, ◌-◌, ◌==◌, Bool, true, false, not, ◌&&◌, inl, inr, ap, Bool-cases, same_at, bit_or, arith,
}
use signalk_esp_os_8relay.Base.Bits.{test, bit, not8, clear, meets}
use signalk_esp_os_8relay.Base.Masks.{test-set_bit}
use signalk_esp_os_8relay.Relay.State.{
  Hw, Ctrl, Source, is_momentary, hold_mask, interlock_partner_bit,
}
use signalk_esp_os_8relay.Relay.Commit.{commit}
use signalk_esp_os_8relay.Relay.Notify.{is_channel}
use signalk_esp_os_8relay.Relay.Switch.{
  Request, switch_off, switch_over, switch_on, drive, coil_wanted, set_or_toggle, sk_lost,
}
use signalk_esp_os_8relay.Relay.Frame.{Status-cases}
use signalk_esp_os_8relay.Relay.Effects.{
  switch_off-ok, switch_off-fail, switch_over-ok, switch_over-fail, switch_on-ok, switch_on-fail,
  safe_target, fail_safe-ok, fail_safe-fail,
}
use signalk_esp_os_8relay.Relay.Limits.{
  switch_off-limits, switch_off-same, switch_over-limits, switch_over-same, switch_on-limits,
  switch_on-same, fail_safe-limits, fail_safe-same,
}
use package.signalk_esp_os_8relay.Relay.Timed.{Timed, tracked_ok, Timed-of, Timed-clear, Timed-same}

module _ {World : Type 0} (hw : Hw World) {s : Ctrl World} (inv : Timed s) where
  switch_off-Timed : (i : ℕ) → Timed (switch_off hw i s).0
  switch_off-Timed i = elim (Status-cases (switch_off hw i s).1) [
    | inl done ↦
        Timed-clear inv (bit i) (clear s.pending_on (bit i)) (switch_off-ok hw s i done)
          (switch_off-limits hw s i done)
    | inr (e, bad) ↦
        Timed-same inv (clear s.pending_on (bit i)) (switch_off-fail hw s i e bad)
          (switch_off-same hw s i e bad)
  ]

  switch_over-Timed : (i : ℕ) (src : Source) → Timed (switch_over hw i src s).0
  switch_over-Timed i src = elim (Status-cases (switch_over hw i src s).1) [
    | inl done ↦
        let partner = interlock_partner_bit s.cfg i in
        Timed-clear inv partner (bit_or (clear s.pending_on partner) (bit i))
          (switch_over-ok hw s i src done) (switch_over-limits hw s i src done)
    | inr (e, bad) ↦
        Timed-same inv s.pending_on (switch_over-fail hw s i src e bad)
          (switch_over-same hw s i src e bad)
  ]

  switch_on-Timed : (i : ℕ) → Timed (switch_on hw i s).0
  switch_on-Timed i = elim (Status-cases (switch_on hw i s).1) [
    | inl done ↦
        let m = switch_on-ok hw s i done in
        Timed-of inv m.cfg
          (λ j h one on off. ground (
            arith,
            ap (λ k. test k j) m.coils,
            ap (λ k. test k j) m.pulses,
            test-set_bit s.mask i j,
            test-set_bit s.pulsing i j,
            same_at (is_momentary s.cfg) i j,
          ))
          (tracked_ok s (switch_on hw i s).0 (bit i) m.cfg (switch_on-limits hw s i done))
    | inr (e, bad) ↦
        Timed-same inv s.pending_on (switch_on-fail hw s i e bad) (switch_on-same hw s i e bad)
  ]

  drive-Timed : (i : ℕ) (on : Bool) (src : Source) → Timed (drive hw i on src s).0
  unfolding drive
  drive-Timed i false src = switch_off-Timed i
  drive-Timed i true src =
      let partner = interlock_partner_bit s.cfg i in
      elim (Bool-cases (not (partner == 0) && meets s.mask partner)) [
        | inl over ↦ rw over (switch_over-Timed i src)
        | inr free ↦ rw free (elim (Bool-cases (test s.pending_on i)) [
          | inl waiting ↦ rw waiting inv
          | inr idle ↦ rw idle (switch_on-Timed i)
        ])
      ]

  -- If the timers are kept (a momentary relay that is on has a running pulse, and a relay with a
  -- maximum on-time that is on has that timer running), they are so after a command to any relay,
  -- from any source, whether the writes of the expander succeed or fail.
  pub set_or_toggle-Timed :
      (channel : ℕ) (request : Request) (src : Source)
      → Timed (set_or_toggle hw s channel request src).0
  unfolding set_or_toggle
  set_or_toggle-Timed channel request src = elim (Bool-cases (is_channel channel)) [
    | inl good ↦ rw good (drive-Timed (channel - 1) (coil_wanted hw s (channel - 1) request) src)
    | inr bad ↦ rw bad inv
  ]

  -- If the timers are kept (a momentary relay that is on has a running pulse, and a relay with a
  -- maximum on-time that is on has that timer running), they are so after the fail-safe on the loss
  -- of SignalK, whether the writes of the expander succeed or fail.
  pub sk_lost-Timed : Timed (sk_lost hw s).0
  unfolding sk_lost
  sk_lost-Timed =
      let off = not8 (hold_mask s.cfg) in
      elim (Status-cases (commit hw s (safe_target hw s)).1) [
        | inl done ↦
            Timed-clear inv off (clear s.pending_on off) (fail_safe-ok hw s done)
              (fail_safe-limits hw s done)
        | inr (e, bad) ↦
            Timed-same inv (clear s.pending_on off) (fail_safe-fail hw s e bad)
              (fail_safe-same hw s e bad)
      ]
