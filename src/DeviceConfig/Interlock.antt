-- ===== src/DeviceConfig/Interlock.antt =====
-- The part of device_config_load() (components/device_config/src/device_config.c) that derives the
-- effective interlock pairs from the stored settings.
use signalk_esp_os_8relay.Base.{
  ℕ, suc, ◌+◌, ◌-◌, ◌<◌, ◌==◌, ltb, if◌then◌else◌, Bool, true, not, ◌&&◌, ◌||◌, ◌≡◌, ◌≢◌, ◌↔◌, sym,
  same_at, arith,
}
use signalk_esp_os_8relay.Base.Bits.{test}
use signalk_esp_os_8relay.Base.Masks.{mask_of, test-mask_of}
use signalk_esp_os_8relay.Board.{channels}
use signalk_esp_os_8relay.DeviceConfig.{Config}
use signalk_esp_os_8relay.Relay.Pairs.{WellPaired}

module _ (raw_interlock : ℕ → ℕ) where
  -- `reciprocated`, for the relay of index `i` with a partner named.
  unfoldable pub reciprocated : ℕ → Bool
  reciprocated i =
      let n = i + 1 in
      let partner = raw_interlock i in
      let self_ref = partner == n in
      let out_of_range = ltb partner 1 || ltb channels partner in
      not self_ref && (not out_of_range && raw_interlock (partner - 1) == n)

  -- The turn of the loop for one relay: its effective partner.
  unfoldable pub effective_partner : ℕ → ℕ
  unfolding reciprocated
  effective_partner i =
      let partner = raw_interlock i in
      if partner == 0 then 0 else if reciprocated i then partner else 0

  -- `interlock_invalid`
  unfoldable pub invalid_interlocks : ℕ
  invalid_interlocks = mask_of channels (λ i. not (raw_interlock i == 0) && not (reciprocated i))

-- The loop over the relays; `raw_interlock` is the snapshot.
unfoldable pub derive_interlocks : Config → Config
unfolding effective_partner invalid_interlocks
derive_interlocks cfg =
    let raw_interlock = λ (i : ℕ). (cfg.relays i).interlock in
    record cfg {
      relays =
          λ i. (let r = cfg.relays i in record r { interlock = effective_partner raw_interlock i });
      interlock_invalid = invalid_interlocks raw_interlock;
    }

module _ (raw_interlock : ℕ → ℕ) where
  effective_partner_sound :
      (i p : ℕ)
      → effective_partner raw_interlock i ≡ suc p
      → (p < 8) × (i ≢ p) × (raw_interlock i ≡ suc p) × (raw_interlock p ≡ suc i)
  unfolding effective_partner
  effective_partner_sound i p e = ground (arith, same_at raw_interlock (raw_interlock i - 1) p)

  -- A relay has partner `p` (from 0) exactly when both are different relays of the board and name
  -- each other.
  pub effective_partner_iff :
      (i p : ℕ)
      → i < 8
      → (effective_partner raw_interlock i ≡ suc p)
        ↔ ((p < 8) × (i ≢ p) × (raw_interlock i ≡ suc p) × (raw_interlock p ≡ suc i))
  unfolding effective_partner
  effective_partner_iff i p h = (
    λ e. effective_partner_sound i p e,
    λ (lt, ne, e, f). ground (arith, same_at raw_interlock (raw_interlock i - 1) p (omega arith)),
  )

-- The derived pairs are well formed, whatever was stored: every partner is another relay of the
-- board that names this one back.
pub derive_interlocks-WellPaired : (cfg : Config) → WellPaired (derive_interlocks cfg)
unfolding derive_interlocks
derive_interlocks-WellPaired cfg =
    let raw = λ (i : ℕ). (cfg.relays i).interlock in
    record {
      in_range = λ i p h e. ((effective_partner_iff raw i p h).0 e).0;
      apart = λ i p h e. ground (arith, ((effective_partner_iff raw i p h).0 e).1);
      mutual_ = λ i p h e.
          let (lt, ne, f, g) = (effective_partner_iff raw i p h).0 e in
          (effective_partner_iff raw p i lt).1 (h, (λ k. ne (sym k)), g, f);
    }

-- A relay is flagged exactly when its setting names a partner and has no effect.
pub invalid_interlocks_iff :
    (cfg : Config) (i : ℕ)
    → i < 8
    → (test (derive_interlocks cfg).interlock_invalid i ≡ true)
      ↔ (((cfg.relays i).interlock ≢ 0) × (((derive_interlocks cfg).relays i).interlock ≡ 0))
unfolding derive_interlocks
invalid_interlocks_iff cfg i h =
    let raw = λ (k : ℕ). (cfg.relays k).interlock in
    let flag = test-mask_of channels (λ k. not (raw k == 0) && not (reciprocated raw k)) i in
    ground (arith, flag)
