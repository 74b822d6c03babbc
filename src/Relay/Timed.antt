-- ===== src/Relay/Timed.antt =====
-- No relay that must end by itself is left on without a timer: a momentary relay that is on has a
-- running pulse, and a relay with a maximum on-time that is on has that timer running.
pub mod Switch
pub mod Tick
pub mod Update
use signalk_esp_os_8relay.Base.{
  ℕ, ◌-◌, ◌<◌, ◌==◌, leb, if◌then◌else◌, Bool, true, false, not, ◌&&◌, ◌||◌, ◌≡◌, ◌⊎◌, inl, inr, ap,
  Bool-cases, same_at, bit_or, arith,
}
use signalk_esp_os_8relay.Base.Bits.{test, bit, not8, clear, meets, test-clear, test-zero}
use signalk_esp_os_8relay.Base.Masks.{test-set_bit}
use signalk_esp_os_8relay.Board.{Status, ok, fail, Fault}
use signalk_esp_os_8relay.Relay.State.{
  Hw, Ctrl, Source, is_momentary, hold_mask, interlock_partner_bit, max_on_ms,
}
use signalk_esp_os_8relay.Relay.Commit.{commit}
use signalk_esp_os_8relay.Relay.Notify.{is_channel}
use signalk_esp_os_8relay.Relay.Switch.{
  Request, switch_off, switch_over, switch_on, drive, coil_wanted, set_or_toggle, fail_safe,
  sk_lost,
}
use signalk_esp_os_8relay.Relay.Tick.{
  end_pulses, end_limits, fire_pending, save_when_due, tick, ended, expired,
}
use signalk_esp_os_8relay.Relay.Frame.{Status-cases}
use signalk_esp_os_8relay.Relay.Effects.{
  Masks, switch_off-ok, switch_off-fail, switch_over-ok, switch_over-fail, switch_on-ok,
  switch_on-fail, safe_target, fail_safe-ok, fail_safe-fail,
}
use signalk_esp_os_8relay.Relay.Limits.{
  LimitsTracked, switch_off-limits, switch_off-same, switch_over-limits, switch_over-same,
  switch_on-limits, switch_on-same, fail_safe-limits, fail_safe-same, end_pulses-limits,
  end_limits-limits, save_when_due-limits,
}
use signalk_esp_os_8relay.Relay.Fire.{end_pulses-Masks, end_limits-Masks, save_when_due-Masks}
use signalk_esp_os_8relay.Relay.FireWaiting.{NotFired, Fired, fire_pending-cases}

pub record Timed {World : Type 0} (s : Ctrl World) : Type 0 where
  pub pulses :
      (i : ℕ) → i < 8 → (is_momentary s.cfg i && (test s.mask i && not (test s.pulsing i))) ≡ false
  pub limits :
      (i : ℕ)
      → i < 8
      → (not (max_on_ms s.cfg i == 0) && (test s.mask i && not (test s.limited i))) ≡ false

module _ {World : Type 0} (s s' : Ctrl World) where
  -- A timer that is tracked runs wherever the coil is on, unless it did not before.
  pub tracked_ok :
      (restart : ℕ)
      → s'.cfg ≡ s.cfg
      → LimitsTracked s s' restart
      → (i : ℕ) → i < 8
      → (max_on_ms s.cfg i == 0) ≡ false
      → test s'.mask i ≡ true
      → test s'.limited i ≡ false
      → (test s.mask i ≡ true) × (test s.limited i ≡ false)
  tracked_ok restart c t i h limit on off = ground (arith, t i h, ap (λ k. max_on_ms k i == 0) c)

module _ {World : Type 0} {s : Ctrl World} (inv : Timed s) {s' : Ctrl World} where
  -- A relay that comes on comes with its pulse, and one that stays on keeps it.
  pub Timed-of :
      s'.cfg ≡ s.cfg
      → ((i : ℕ)
          → i < 8
          → is_momentary s.cfg i ≡ true
          → test s'.mask i ≡ true
          → test s'.pulsing i ≡ false
          → (test s.mask i ≡ true) × (test s.pulsing i ≡ false))
      → ((i : ℕ)
          → i < 8
          → (max_on_ms s.cfg i == 0) ≡ false
          → test s'.mask i ≡ true
          → test s'.limited i ≡ false
          → (test s.mask i ≡ true) × (test s.limited i ≡ false))
      → Timed s'
  Timed-of c f g = record {
    pulses = λ i h. ground (arith, inv.pulses i h, f i h, ap (λ k. is_momentary k i) c);
    limits = λ i h. ground (arith, inv.limits i h, g i h, ap (λ k. max_on_ms k i == 0) c);
  }

  -- Coils and pulses that go off together.
  pub Timed-clear :
      (a w : ℕ)
      → Masks s s' (clear s.mask a) w (clear s.pulsing a)
      → LimitsTracked s s' 0
      → Timed s'
  Timed-clear a w m t =
      Timed-of m.cfg
        (λ i h one on off. ground (
          arith,
          ap (λ k. test k i) m.coils,
          ap (λ k. test k i) m.pulses,
          test-clear s.mask a i,
          test-clear s.pulsing a i,
        ))
        (tracked_ok s s' 0 m.cfg t)

  -- Nothing but the waits changed.
  pub Timed-same : (w : ℕ) → Masks s s' s.mask w s.pulsing → s'.limited ≡ s.limited → Timed s'
  Timed-same w m t =
      Timed-of m.cfg
        (λ i h one on off. ground (arith, ap (λ k. test k i) m.coils, ap (λ k. test k i) m.pulses))
        (λ i h limit on off. ground (arith, ap (λ k. test k i) m.coils, ap (λ k. test k i) t))
