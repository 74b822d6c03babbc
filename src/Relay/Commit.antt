-- ===== src/Relay/Commit.antt =====
-- commit_locked() and track_max_on_locked(): every change of the coils goes through these two.
use signalk_esp_os_8relay.Base.{
  ℕ, zero, suc, ◌==◌, if◌then◌else◌, true, false, not, ◌||◌, ◌∷◌, bit_or, bit_xor,
}
use signalk_esp_os_8relay.Base.Bits.{test, bit, clear, meets}
use signalk_esp_os_8relay.Base.Words.{add32}
use signalk_esp_os_8relay.Board.{channels, Fault, Status, ok, fail}
use signalk_esp_os_8relay.Tca9554.{write_outputs}
use signalk_esp_os_8relay.Relay.State.{
  Hw, Ctrl, expander_alarm, expander_normal, interlock_report, update, to_reg, hold_mask, max_on_ms,
}

-- report_fault
unfoldable pub report_fault : {World : Type 0} → Ctrl World → Fault → Ctrl World
report_fault s e = record s { reports = expander_alarm e ∷ s.reports; i2c_fault = true }

-- report_interlock_health
unfoldable pub report_interlock_health : {World : Type 0} → Ctrl World → ℕ → Ctrl World
report_interlock_health s conflict = record s { reports = interlock_report conflict ∷ s.reports }

-- What commit_locked() does once the chip has confirmed `target`.
unfoldable pub confirmed : {World : Type 0} → Ctrl World → World → ℕ → Ctrl World
confirmed s w target = record s {
  world = w;
  reports = if s.i2c_fault then expander_normal ∷ s.reports else s.reports;
  i2c_fault = false;
  save_pending = s.save_pending || meets (bit_xor target s.mask) (hold_mask s.cfg);
  mask = target;
}

-- The turn of the loop of track_max_on_locked() for one channel.
unfoldable pub track_channel : {World : Type 0} → ℕ → ℕ → ℕ → ℕ → Ctrl World → Ctrl World
track_channel now before restart i s =
    if not (test s.mask i) || max_on_ms s.cfg i == 0
    then record s { limited = clear s.limited (bit i) }
    else if not (test before i) || test restart i
    then record s {
      max_on_end = update s.max_on_end i (add32 now (max_on_ms s.cfg i));
      limited = bit_or s.limited (bit i);
    }
    else s

unfoldable pub track_loop : {World : Type 0} → ℕ → ℕ → ℕ → ℕ → Ctrl World → Ctrl World
track_loop now before restart zero s = s
track_loop now before restart (suc n) s =
    track_channel now before restart n (track_loop now before restart n s)

module _ {World : Type 0} (hw : Hw World) where
  -- The write of commit_locked() with its one retry.
  unfoldable pub write_twice : World → ℕ → World × Status
  write_twice w value =
      let (w', status) = write_outputs hw.expander w value in
      elim status [ ok ↦ (w', ok) | fail e ↦ write_outputs hw.expander w' value ]

  -- commit_locked
  unfoldable pub commit : Ctrl World → ℕ → Ctrl World × Status
  unfolding confirmed report_fault write_twice
  commit s target =
      if target == s.mask
      then (s, ok)
      else let (w, status) = write_twice s.world (to_reg target) in
        elim status [
          | ok ↦ (confirmed s w target, ok)
          | fail e ↦ (report_fault (record s { world = w }) e, fail e)
        ]

  -- track_max_on_locked
  unfoldable pub track_max_on : Ctrl World → ℕ → ℕ → Ctrl World
  unfolding track_loop track_channel
  track_max_on s before restart = track_loop (hw.now_ms s.world) before restart channels s
