-- ===== src/Relay/Update.antt =====
-- relay_ctrl_update_config(): settings that change while the relays run.
use signalk_esp_os_8relay.Base.{ℕ, zero, suc, if◌then◌else◌, not, ◌&&◌, ◌||◌, ◌==◌, List}
use signalk_esp_os_8relay.Base.Bits.{test, bit, clear}
use signalk_esp_os_8relay.Base.Masks.{mask_of}
use signalk_esp_os_8relay.Board.{channels, ok, fail}
use signalk_esp_os_8relay.DeviceConfig.{Config}
use signalk_esp_os_8relay.Relay.State.{
  Hw, Ctrl, interlock, Notice, is_momentary, hold_mask, max_on_ms, clear_interlock_conflicts,
}
use signalk_esp_os_8relay.Relay.Commit.{commit, track_max_on, report_interlock_health}
use signalk_esp_os_8relay.Relay.Notify.{notify, reported}
use signalk_esp_os_8relay.Relay.Switch.{start_pulse}

-- The first loop, for one channel: a relay that became momentary while on starts its pulse.
unfoldable pub repulse_channel : {World : Type 0} → ℕ → ℕ → Ctrl World → Ctrl World
unfolding start_pulse
repulse_channel now i s =
    if not (is_momentary s.cfg i)
    then record s { pulsing = clear s.pulsing (bit i) }
    else if test s.mask i && not (test s.pulsing i)
    then start_pulse now i s
    else s

unfoldable pub repulse_loop : {World : Type 0} → ℕ → ℕ → Ctrl World → Ctrl World
repulse_loop now zero s = s
repulse_loop now (suc n) s = repulse_channel now n (repulse_loop now n s)

-- `changed_limit`: the relays whose maximum on-time is another one than before.
unfoldable pub changed_limit : Config → Config → ℕ
changed_limit old cfg = mask_of channels (λ i. not (max_on_ms cfg i == max_on_ms old i))

module _ {World : Type 0} (hw : Hw World) where
  -- The part up to track_max_on_locked(s.mask, changed_limit).
  unfoldable pub adopt_config : Config → Ctrl World → Ctrl World
  adopt_config cfg s =
      let s1 = repulse_loop (hw.now_ms s.world) channels (record s { cfg = cfg }) in
      let s2 = record s1 {
        save_pending = s1.save_pending || not (hold_mask cfg == hold_mask s.cfg);
      } in
      track_max_on hw s2 s2.mask (changed_limit s.cfg cfg)

  -- The part from there: the coils of a pair that is on together go off.
  unfoldable pub part_conflicts : Ctrl World → Ctrl World
  part_conflicts s =
      let conflict = (clear_interlock_conflicts s.cfg s.mask).1 in
      if conflict == 0
      then report_interlock_health s 0
      else let (s1, status) = commit hw s (clear s.mask conflict) in
        elim status [
          | ok ↦
              report_interlock_health
                (track_max_on hw
                  (record s1 {
                    pulsing = clear s1.pulsing conflict;
                    pending_on = clear s1.pending_on conflict;
                  })
                  s.mask 0)
                conflict
          | fail e ↦ report_interlock_health s1 0
        ]

  -- relay_ctrl_update_config
  unfoldable pub update_config : Config → Ctrl World → Ctrl World × List Notice
  update_config cfg s =
      let s1 = adopt_config cfg s in
      let s2 = part_conflicts s1 in
      (s2, notify s2.listeners (reported s2 s1.mask) (reported s2 s2.mask) interlock)
