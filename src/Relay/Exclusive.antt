-- ===== src/Relay/Exclusive.antt =====
-- The interlock: of two paired relays at most one coil is on and at most one waits, and a relay that
-- waits is off. Here as a predicate of the settings and the two masks, and what keeps it.
pub mod Switch
pub mod Tick
pub mod Update
use signalk_esp_os_8relay.Base.{
  ℕ, zero, suc, ◌<◌, ◌==◌, if◌then◌else◌, Bool, true, false, not, ◌&&◌, ◌||◌, ◌≡◌, ◌⊎◌, inl, inr,
  refl, ap, ==_iff, bit_or, arith,
}
use signalk_esp_os_8relay.Base.Bits.{test, bit, clear, test-clear}
use signalk_esp_os_8relay.Base.Masks.{test-set_bit, test-clear-bit}
use signalk_esp_os_8relay.DeviceConfig.{Config}
use signalk_esp_os_8relay.Relay.State.{interlock_partner_bit}
use signalk_esp_os_8relay.Relay.Pairs.{
  Paired, WellPaired, partner_in, partner-cases, partner_bit-none, partner_bit-Paired, bit-ne-zero,
}

pub record Exclusive (cfg : Config) (mask pending : ℕ) : Type 0 where
  pub coils : (i p : ℕ) → i < 8 → Paired cfg i p → (test mask i && test mask p) ≡ false
  pub waits : (i p : ℕ) → i < 8 → Paired cfg i p → (test pending i && test pending p) ≡ false
  pub idle : (i : ℕ) → i < 8 → (test pending i && test mask i) ≡ false

module _ {cfg : Config} {mask pending : ℕ} (excl : Exclusive cfg mask pending) where
  -- Switching off and cancelling keep it.
  pub Exclusive-clear : (a b : ℕ) → Exclusive cfg (clear mask a) (clear pending b)
  Exclusive-clear a b = record {
    coils = λ i p h e. ground (arith, test-clear mask a i, test-clear mask a p, excl.coils i p h e);
    waits = λ i p h e.
        ground (arith, test-clear pending b i, test-clear pending b p, excl.waits i p h e);
    idle = λ i h. ground (arith, test-clear mask a i, test-clear pending b i, excl.idle i h);
  }

  pub Exclusive-cancel : (b : ℕ) → Exclusive cfg mask (clear pending b)
  Exclusive-cancel b = record {
    coils = excl.coils;
    waits = λ i p h e.
        ground (arith, test-clear pending b i, test-clear pending b p, excl.waits i p h e);
    idle = λ i h. ground (arith, test-clear pending b i, excl.idle i h);
  }

  pub Exclusive-off : (a : ℕ) → Exclusive cfg (clear mask a) pending
  Exclusive-off a = record {
    coils = λ i p h e. ground (arith, test-clear mask a i, test-clear mask a p, excl.coils i p h e);
    waits = excl.waits;
    idle = λ i h. ground (arith, test-clear mask a i, excl.idle i h);
  }

module _ {cfg : Config} (pairs : WellPaired cfg) where
  -- A partner is determined by its relay.
  pub partner_unique : (i j p : ℕ) → i < 8 → j < 8 → Paired cfg i p → Paired cfg j p → i ≡ j
  partner_unique i j p hi hj e f = omega (arith, pairs.mutual_ i p hi e, pairs.mutual_ j p hj f)

  module _ {mask pending : ℕ} (excl : Exclusive cfg mask pending) where
    -- Handing over: the partner `q` of `k` goes off, and `k` waits.
    pub Exclusive-over :
        (k q : ℕ)
        → k < 8
        → Paired cfg k q
        → test mask q ≡ true
        → Exclusive cfg (clear mask (bit q)) (bit_or (clear pending (bit q)) (bit k))
    Exclusive-over k q hk e on = record {
      coils = (Exclusive-off excl (bit q)).coils;
      waits = λ i p h f. ground (
        arith,
        pairs.mutual_ i p h f,
        pairs.in_range i p h f,
        pairs.apart k q hk e,
        excl.waits i p h f,
        test-set_bit (clear pending (bit q)) k i,
        test-set_bit (clear pending (bit q)) k p,
        test-clear-bit pending q i,
        test-clear-bit pending q p,
      );
      idle = λ i h. ground (
        arith,
        excl.coils k q hk e,
        excl.idle i h,
        test-set_bit (clear pending (bit q)) k i,
        test-clear-bit pending q i,
        test-clear-bit mask q i,
        pairs.apart k q hk e,
      );
    }

    -- Switching on a relay that does not wait and whose partner is off; the partner's wait is
    -- cancelled.
    pub Exclusive-on :
        (k : ℕ)
        → k < 8
        → test pending k ≡ false
        → partner_in mask (cfg.relays k).interlock ≡ false
        → Exclusive cfg (bit_or mask (bit k)) (
            if interlock_partner_bit cfg k == 0
            then pending
            else clear pending (interlock_partner_bit cfg k))
    Exclusive-on k hk idle_k off = elim (partner-cases (cfg.relays k).interlock) [
      | inl none ↦ rw (partner_bit-none cfg k none) (record {
        coils = λ i p h f. ground (
          arith,
          pairs.mutual_ i p h f,
          excl.coils i p h f,
          test-set_bit mask k i,
          test-set_bit mask k p,
        );
        waits = excl.waits;
        idle = λ i h. ground (arith, excl.idle i h, test-set_bit mask k i);
      })
      | inr (q, e) ↦
          rw (partner_bit-Paired cfg k q (pairs.in_range k q hk e) e, bit-ne-zero q)
            (record {
              coils = λ i p h f. ground (
                arith,
                pairs.mutual_ i p h f,
                pairs.apart i p h f,
                excl.coils i p h f,
                off_q q e,
                test-set_bit mask k i,
                test-set_bit mask k p,
              );
              waits = (Exclusive-cancel excl (bit q)).waits;
              idle = λ i h.
                  ground
                    (arith, excl.idle i h, test-set_bit mask k i, test-clear-bit pending q i h);
            })
    ]
      where
        off_q : (q : ℕ) → Paired cfg k q → test mask q ≡ false
        off_q q e = let o : partner_in mask (suc q) ≡ false = rw e at off in o
