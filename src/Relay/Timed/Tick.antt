-- ===== src/Relay/Timed/Tick.antt =====
-- relay_ctrl_tick() keeps the timers.
use signalk_esp_os_8relay.Base.{ℕ, ◌==◌, ◌≡◌, inl, inr, ap, arith}
use signalk_esp_os_8relay.Base.Bits.{test, test-clear}
use signalk_esp_os_8relay.Relay.State.{Hw, Ctrl, max_on_ms}
use signalk_esp_os_8relay.Relay.Tick.{
  end_pulses, end_limits, fire_pending, save_when_due, tick, ended, expired,
}
use signalk_esp_os_8relay.Relay.Limits.{end_pulses-limits, end_limits-limits, save_when_due-limits}
use signalk_esp_os_8relay.Relay.Fire.{end_pulses-Masks, end_limits-Masks, save_when_due-Masks}
use signalk_esp_os_8relay.Relay.FireWaiting.{fire_pending-cases}
use package.signalk_esp_os_8relay.Relay.Timed.{Timed, Timed-of, Timed-same}

module _ {World : Type 0} (hw : Hw World) {s : Ctrl World} (inv : Timed s) where
  end_pulses-Timed : (now : ℕ) → Timed (end_pulses hw now s)
  end_pulses-Timed now = elim (end_pulses-Masks hw now s) [
    | inl m ↦ Timed-same inv s.pending_on m (end_pulses-limits hw s now)
    | inr m ↦
        Timed-of inv m.cfg
          (λ i h one on off. ground (
            arith,
            ap (λ k. test k i) m.coils,
            ap (λ k. test k i) m.pulses,
            test-clear s.mask (ended now s) i,
            test-clear s.pulsing (ended now s) i,
          ))
          (λ i h limit on off. ground (
            arith,
            ap (λ k. test k i) m.coils,
            test-clear s.mask (ended now s) i,
            ap (λ k. test k i) (end_pulses-limits hw s now),
          ))
  ]

  end_limits-pulses :
      (now : ℕ) → ((end_limits hw now s).cfg ≡ s.cfg) × ((end_limits hw now s).pulsing ≡ s.pulsing)
  end_limits-pulses now = elim (end_limits-Masks hw now s) [
    | inl m ↦ (m.cfg, m.pulses)
    | inr m ↦ (m.cfg, m.pulses)
  ]

  end_limits-Timed : (now : ℕ) → Timed (end_limits hw now s)
  end_limits-Timed now =
      let (c, p) = end_limits-pulses now in
      elim (end_limits-limits hw s now) [
        | inl (l, m) ↦
            Timed-of inv c
              (λ i h one on off. ground (arith, ap (λ k. test k i) m, ap (λ k. test k i) p))
              (λ i h limit on off. ground (arith, ap (λ k. test k i) m, ap (λ k. test k i) l))
        | inr (l, m) ↦
            Timed-of inv c
              (λ i h one on off. ground (
                arith,
                ap (λ k. test k i) m,
                ap (λ k. test k i) p,
                test-clear s.mask (expired now s) i,
              ))
              (λ i h limit on off. ground (
                arith,
                ap (λ k. test k i) m,
                ap (λ k. test k i) l,
                test-clear s.mask (expired now s) i,
                test-clear s.limited (expired now s) i,
              ))
      ]

  fire_pending-Timed : (now : ℕ) → Timed (fire_pending hw now s).0
  fire_pending-Timed now = elim (fire_pending-cases hw now s) [
    | inl (n, _, _) ↦
        Timed-of inv n.cfg
          (λ i h one on off.
            ground (arith, ap (λ k. test k i) n.coils, ap (λ k. test k i) n.pulses))
          (λ i h limit on off.
            ground (arith, ap (λ k. test k i) n.coils, ap (λ k. test k i) n.limits))
    | inr f ↦
        Timed-of inv f.cfg (λ i h one on off. ground (arith, f.coils i h, f.pulses i h))
          (λ i h limit on off.
            ground (arith, f.limits i h, f.coils i h, ap (λ k. max_on_ms k i == 0) f.cfg))
  ]

  save_when_due-Timed : (now : ℕ) → Timed (save_when_due hw now s)
  save_when_due-Timed now =
      Timed-same inv s.pending_on (save_when_due-Masks hw now s) (save_when_due-limits hw s now)

module _ {World : Type 0} (hw : Hw World) {s : Ctrl World} where
  -- If the timers are kept (a momentary relay that is on has a running pulse, and a relay with a
  -- maximum on-time that is on has that timer running), they are so after a tick, whether the
  -- writes of the expander succeed or fail.
  pub tick-Timed : Timed s → Timed (tick hw s).0
  unfolding tick
  tick-Timed inv =
      let now = hw.now_ms s.world in
      save_when_due-Timed hw
        (fire_pending-Timed hw (end_limits-Timed hw (end_pulses-Timed hw inv now) now) now) now
