-- ===== src/Relay/Boot.antt =====
-- relay_ctrl_init() and relay_ctrl_reset().
use signalk_esp_os_8relay.Base.{ℕ, ◌==◌, if◌then◌else◌, Bool, true, false, not, ◌||◌, [], bit_and}
use signalk_esp_os_8relay.Base.Words.{sub32}
use signalk_esp_os_8relay.Board.{Status, Reply, ok, fail, got, failed, no_mem}
use signalk_esp_os_8relay.DeviceConfig.{Config}
use signalk_esp_os_8relay.Tca9554.{all_outputs, read_outputs, write_outputs, init_outputs}
use signalk_esp_os_8relay.Relay.State.{
  Hw, Ctrl, save_delay_ms, to_reg, from_reg, hold_mask, clear_interlock_conflicts, Source,
}
use signalk_esp_os_8relay.Relay.Commit.{report_fault, track_max_on, report_interlock_health}

module _ {World : Type 0} (hw : Hw World) where
  -- The state after the settings are taken over.
  unfoldable pub prepare : Config → Ctrl World → Ctrl World
  prepare cfg s = record s {
    cfg = cfg;
    pulsing = 0;
    limited = 0;
    pending_on = 0;
    save_pending = false;
    last_save_ms = sub32 (hw.now_ms s.world) save_delay_ms;
  }

  -- `held`: what the chip drives on a warm boot, what was stored on a cold one.
  unfoldable pub held_outputs : Bool → World → World × Reply ℕ
  held_outputs warm w = elim warm [
    | true ↦
        let (w', reply) = read_outputs hw.expander w in
        elim reply [ got reg ↦ (w', got (from_reg reg)) | failed e ↦ (w', failed e) ]
    | false ↦
        let (w', reply) = hw.store.load w in
        elim reply [ got held ↦ (w', got held) | failed e ↦ (w', got 0) ]
  ]

  -- The write of the boot: the pins of a chip that was off become outputs too.
  unfoldable pub write_target : Bool → World → ℕ → World × Status
  write_target warm w target =
      if warm
      then write_outputs hw.expander w (to_reg target)
      else init_outputs hw.expander w (to_reg target)

  -- What follows once the chip has confirmed `target`.
  unfoldable pub settle : Bool → World → ℕ → ℕ → Ctrl World → Ctrl World
  settle warm w target conflict s =
      let s1 = track_max_on hw (record s { world = w; mask = target }) 0 0 in
      report_interlock_health (record s1 { save_pending = warm || not (conflict == 0) }) conflict

  unfoldable pub settle_from : Bool → ℕ → ℕ → Ctrl World → World × Status → Ctrl World × Status
  settle_from warm target conflict s (w, ok) = (settle warm w target conflict s, ok)
  settle_from warm target conflict s (w, fail e) = (report_fault (record s { world = w }) e, fail e)

  -- From `held` to the end.
  unfoldable pub restore : Bool → ℕ → Ctrl World → Ctrl World × Status
  restore warm held s =
      let (target, conflict) = clear_interlock_conflicts s.cfg (bit_and held (hold_mask s.cfg)) in
      settle_from warm target conflict s (write_target warm s.world target)

  -- From the read of `held` on.
  unfoldable pub restore_from : Bool → Ctrl World → World × Reply ℕ → Ctrl World × Status
  restore_from warm s (w, got held) = restore warm held (record s { world = w })
  restore_from warm s (w, failed e) = (report_fault (record s { world = w }) e, fail e)

  -- From tca9554_all_outputs() on.
  unfoldable pub boot_from : Ctrl World → World × Reply Bool → Ctrl World × Status
  boot_from s (w, got warm) = restore_from warm (record s { world = w }) (held_outputs warm w)
  boot_from s (w, failed e) = (report_fault (record s { world = w }) e, fail e)

  -- relay_ctrl_init. `lock` says whether there is a mutex or one could be made.
  unfoldable pub init : Bool → Config → Ctrl World → Ctrl World × Status
  init lock cfg s =
      if not lock
      then (s, fail no_mem)
      else boot_from (prepare cfg s) (all_outputs hw.expander s.world)

-- relay_ctrl_reset: all but the lock reads zero. `cfg` is the settings of zeros.
unfoldable pub reset : {World : Type 0} → World → Config → Ctrl World
reset w cfg = record {
  world = w;
  cfg = cfg;
  mask = 0;
  pulsing = 0;
  pulse_end = λ i. 0;
  limited = 0;
  max_on_end = λ i. 0;
  pending_on = 0;
  pending_on_end = λ i. 0;
  pending_on_src = λ i. Source.sk;
  save_pending = false;
  last_save_ms = 0;
  i2c_fault = false;
  listeners = [];
  reports = [];
}
