-- ===== src/Relay/Pairs.antt =====
-- Interlocked pairs: settings whose pairs are well formed, and what the tests of relay_ctrl.c on a
-- partner mean for them.
use signalk_esp_os_8relay.Base.{
  ℕ, zero, suc, ◌-◌, ◌<◌, ◌≤◌, ◌==◌, ltb, Bool, false, not, ◌&&◌, ◌≡◌, ◌⊎◌, inl, inr, refl, ap,
  same_at, ==_iff, Bool-cases, arith,
}
use signalk_esp_os_8relay.Base.Bits.{test, bit, meets, meets-bit, test-zero, test-bit}
use signalk_esp_os_8relay.Base.Masks.{test-set_bit, test-clear-bit}
use signalk_esp_os_8relay.Base.Words.{u8}
use signalk_esp_os_8relay.DeviceConfig.{Config}
use signalk_esp_os_8relay.Relay.State.{
  interlock_partner_bit, in_conflict, clear_conflicts_loop, clear_interlock_conflicts,
}

-- Relay `i` (from 0) names relay `p` as its partner.
abbrev pub Paired : Config → ℕ → ℕ → Type 0
Paired cfg i p = (cfg.relays i).interlock ≡ suc p

-- Every partner is another relay of the board, and names this one back. device_config_load() makes
-- sure of it (DeviceConfig/Interlock).
pub record WellPaired (cfg : Config) : Type 0 where
  pub in_range : (i p : ℕ) → i < 8 → Paired cfg i p → p < 8
  pub apart : (i p : ℕ) → i < 8 → Paired cfg i p → (i == p) ≡ false
  pub mutual_ : (i p : ℕ) → i < 8 → Paired cfg i p → Paired cfg p i

-- Whether a partner of relay `i` has its bit set in `m`.
abbrev pub partner_in : ℕ → ℕ → Bool
partner_in m zero = false
partner_in m (suc p) = test m p

bit-byte : (p : ℕ) → p < 8 → u8 (bit p) ≡ bit p
bit-byte zero h = refl
bit-byte (suc zero) h = refl
bit-byte (suc (suc zero)) h = refl
bit-byte (suc (suc (suc zero))) h = refl
bit-byte (suc (suc (suc (suc zero)))) h = refl
bit-byte (suc (suc (suc (suc (suc zero))))) h = refl
bit-byte (suc (suc (suc (suc (suc (suc zero)))))) h = refl
bit-byte (suc (suc (suc (suc (suc (suc (suc zero))))))) h = refl
bit-byte (suc (suc (suc (suc (suc (suc (suc (suc p)))))))) h = absurd (omega arith)

pub bit-ne-zero : (p : ℕ) → (bit p == 0) ≡ false
bit-ne-zero p = elim (Bool-cases (bit p == 0)) [
  | inl e ↦
      let z : bit p ≡ 0 = (==_iff (bit p) 0).0 e in
      ground (arith, test-bit p p, ap (λ m. test m p) z, test-zero p)
  | inr e ↦ e
]

pub partner-cases : (k : ℕ) → (k ≡ 0) ⊎ ((p : ℕ) × (k ≡ suc p))
partner-cases zero = inl refl
partner-cases (suc p) = inr (p, refl)

module _ (cfg : Config) where
  pub partner_bit-none : (i : ℕ) → (cfg.relays i).interlock ≡ 0 → interlock_partner_bit cfg i ≡ 0
  unfolding interlock_partner_bit
  partner_bit-none i h = ground arith

  pub partner_bit-Paired : (i p : ℕ) → p < 8 → Paired cfg i p → interlock_partner_bit cfg i ≡ bit p
  unfolding interlock_partner_bit
  partner_bit-Paired i p h e =
      let z : (cfg.relays i).interlock - 1 ≡ p = omega arith in
      ground (arith, ap (λ k. u8 (bit k)) z, bit-byte p h)

  module _ (paired : WellPaired cfg) where
    -- `partner_bit && (m & partner_bit)`
    pub partner_test :
        (m i : ℕ)
        → i < 8
        → (not (interlock_partner_bit cfg i == 0) && meets m (interlock_partner_bit cfg i))
          ≡ partner_in m (cfg.relays i).interlock
    partner_test m i h = elim (partner-cases (cfg.relays i).interlock) [
      | inl none ↦ rw (none, partner_bit-none i none) refl
      | inr (p, e) ↦
          rw (e, partner_bit-Paired i p (paired.in_range i p h e), bit-ne-zero p) (meets-bit m p)
    ]

    pub in_conflict_lem :
        (m i : ℕ)
        → i < 8
        → in_conflict cfg m i ≡ (test m i && partner_in m (cfg.relays i).interlock)
    unfolding in_conflict
    in_conflict_lem m i h = ground (arith, partner_test m i h)

    module _ (m : ℕ) where
      -- The two masks of the loop, bit by bit.
      conflicts_loop-out :
          (n j : ℕ)
          → n ≤ 8
          → j < 8
          → test (clear_conflicts_loop cfg m n).0 j
            ≡ (test m j && not (ltb j n && partner_in m (cfg.relays j).interlock))
      unfolding clear_conflicts_loop
      conflicts_loop-out zero j le h = ground arith
      conflicts_loop-out (suc n) j le h = ground (
        arith,
        conflicts_loop-out n j (omega arith) h,
        test-clear-bit (clear_conflicts_loop cfg m n).0 n j h,
        in_conflict_lem m j h,
        same_at (in_conflict cfg m) n j,
      )

      conflicts_loop-conflict :
          (n j : ℕ)
          → n ≤ 8
          → j < 8
          → test (clear_conflicts_loop cfg m n).1 j
            ≡ (ltb j n && (test m j && partner_in m (cfg.relays j).interlock))
      unfolding clear_conflicts_loop
      conflicts_loop-conflict zero j le h = ground (arith, test-zero j)
      conflicts_loop-conflict (suc n) j le h = ground (
        arith,
        conflicts_loop-conflict n j (omega arith) h,
        test-set_bit (clear_conflicts_loop cfg m n).1 n j,
        in_conflict_lem m j h,
        same_at (in_conflict cfg m) n j,
      )

      -- clear_interlock_conflicts() keeps exactly the coils whose partner is off, and reports the
      -- others.
      pub clear_conflicts-out :
          (j : ℕ)
          → j < 8
          → test (clear_interlock_conflicts cfg m).0 j
            ≡ (test m j && not (partner_in m (cfg.relays j).interlock))
      unfolding clear_interlock_conflicts
      clear_conflicts-out j h = ground (arith, conflicts_loop-out 8 j (omega arith) h)

      pub clear_conflicts-conflict :
          (j : ℕ)
          → j < 8
          → test (clear_interlock_conflicts cfg m).1 j
            ≡ (test m j && partner_in m (cfg.relays j).interlock)
      unfolding clear_interlock_conflicts
      clear_conflicts-conflict j h = ground (arith, conflicts_loop-conflict 8 j (omega arith) h)
