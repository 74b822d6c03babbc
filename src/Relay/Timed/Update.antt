-- ===== src/Relay/Timed/Update.antt =====
-- relay_ctrl_update_config() starts the timers that new settings ask for.
use signalk_esp_os_8relay.Base.{inl, inr, ap, arith}
use signalk_esp_os_8relay.Base.Bits.{test, clear}
use signalk_esp_os_8relay.Relay.State.{Hw, Ctrl, is_momentary, max_on_ms}
use package.signalk_esp_os_8relay.Relay.Timed.{Timed, Timed-clear, Timed-same}
use signalk_esp_os_8relay.DeviceConfig.{Config}
use signalk_esp_os_8relay.Relay.Update.{adopt_config, part_conflicts, update_config}
use signalk_esp_os_8relay.Relay.Adopt.{adopt_config-Adopted, conflict, part_conflicts-cases}

module _ {World : Type 0} (hw : Hw World) {s : Ctrl World} where
  adopt_config-Timed : (cfg : Config) → Timed s → Timed (adopt_config hw cfg s)
  adopt_config-Timed cfg inv =
      let a = adopt_config-Adopted hw cfg s in
      record {
        pulses = λ i h. ground (
          arith,
          a.pulses i h,
          ap (λ c. is_momentary c i) a.settings,
          ap (λ m. test m i) a.coils,
        );
        limits = λ i h. ground (
          arith,
          a.limits i h,
          inv.limits i h,
          ap (λ c. max_on_ms c i) a.settings,
          ap (λ m. test m i) a.coils,
        );
      }

  part_conflicts-Timed : Timed s → Timed (part_conflicts hw s)
  part_conflicts-Timed inv = elim (part_conflicts-cases hw s) [
    | inl (_, n) ↦
        Timed-same inv s.pending_on
          (record { cfg = n.cfg; coils = n.coils; waiting = n.waiting; pulses = n.pulses }) n.limits
    | inr p ↦
        Timed-clear inv (conflict hw s) (clear s.pending_on (conflict hw s))
          (record { cfg = p.cfg; coils = p.coils; waiting = p.waiting; pulses = p.pulses }) p.limits
  ]

module _ {World : Type 0} (hw : Hw World) {s : Ctrl World} where
  -- After new settings are taken over, the timers are kept for them (a momentary relay that is on
  -- has a running pulse, and a relay with a maximum on-time that is on has that timer running), if
  -- they were kept for the old ones.
  pub update_config-Timed : (cfg : Config) → Timed s → Timed (update_config hw cfg s).0
  unfolding update_config
  update_config-Timed cfg inv = part_conflicts-Timed hw (adopt_config-Timed hw cfg inv)
