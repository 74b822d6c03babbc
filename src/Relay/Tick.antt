-- ===== src/Relay/Tick.antt =====
-- relay_ctrl_tick(): pulses that end, maximum on-times that run out, relays whose dead time is over,
-- and the stored state. The four parts are one call under the lock.
use signalk_esp_os_8relay.Base.{
  ℕ, zero, suc, if◌then◌else◌, Bool, false, not, ◌&&◌, ◌||◌, ◌==◌, leb, List, [], ◌++◌, bit_or,
  bit_and,
}
use signalk_esp_os_8relay.Base.Bits.{test, bit, clear, meets}
use signalk_esp_os_8relay.Base.Words.{sub32}
use signalk_esp_os_8relay.Base.Masks.{mask_of}
use signalk_esp_os_8relay.Board.{channels, ok, fail}
use signalk_esp_os_8relay.Relay.State.{
  Hw, Ctrl, Source, max_on, Notice, save_delay_ms, is_momentary, hold_mask, interlock_partner_bit,
  deadline_passed,
}
use signalk_esp_os_8relay.Relay.Commit.{commit, track_max_on}
use signalk_esp_os_8relay.Relay.Notify.{notify, notify_bits, reported}
use signalk_esp_os_8relay.Relay.Switch.{start_pulse}

-- The last loop: each fired relay is reported with the source of its command.
unfoldable pub fired_notices : (ℕ → Source) → List ℕ → ℕ → ℕ → ℕ → List Notice
fired_notices src listeners fired after zero = []
fired_notices src listeners fired after (suc n) =
    fired_notices src listeners fired after n
    ++ (if test fired n then notify_bits listeners (bit n) after (src n) else [])

module _ {World : Type 0} where
  -- `ended`
  unfoldable pub ended : ℕ → Ctrl World → ℕ
  ended now s = mask_of channels (λ i. test s.pulsing i && deadline_passed now (s.pulse_end i))

  -- `expired`
  unfoldable pub expired : ℕ → Ctrl World → ℕ
  expired now s = mask_of channels (λ i. test s.limited i && deadline_passed now (s.max_on_end i))

  -- The relay waits, and its dead time has run out.
  unfoldable pub dead_time_over : ℕ → Ctrl World → ℕ → Bool
  dead_time_over now s i = test s.pending_on i && deadline_passed now (s.pending_on_end i)

  -- The safety net: the partner's coil is off, or there is none.
  unfoldable pub may_fire : Ctrl World → ℕ → Bool
  may_fire s i =
      let partner = interlock_partner_bit s.cfg i in partner == 0 || not (meets s.mask partner)

  -- The third loop over the first `n` channels: `s.pending_on` and `fired`.
  unfoldable pub fire_loop : ℕ → Ctrl World → ℕ → ℕ × ℕ
  unfolding dead_time_over may_fire
  fire_loop now s zero = (s.pending_on, 0)
  fire_loop now s (suc n) =
      let (pending, fired) = fire_loop now s n in
      if not (dead_time_over now s n)
      then (pending, fired)
      else if may_fire s n
      then (pending, bit_or fired (bit n))
      else (clear pending (bit n), fired)

  -- The loop over `fired` after the commit, for one channel and for the first `n`.
  unfoldable pub fire_channel : ℕ → ℕ → ℕ → Ctrl World → Ctrl World
  unfolding start_pulse
  fire_channel now fired i s =
      if not (test fired i)
      then s
      else let s' = record s { pending_on = clear s.pending_on (bit i) } in
        if is_momentary s.cfg i then start_pulse now i s' else s'

  unfoldable pub fired_loop : ℕ → ℕ → ℕ → Ctrl World → Ctrl World
  fired_loop now fired zero s = s
  fired_loop now fired (suc n) s = fire_channel now fired n (fired_loop now fired n s)

module _ {World : Type 0} (hw : Hw World) where
  unfoldable pub end_pulses : ℕ → Ctrl World → Ctrl World
  unfolding ended
  end_pulses now s =
      let over = ended now s in
      if over == 0
      then s
      else let (s1, status) = commit hw s (clear s.mask over) in
        elim status [ ok ↦ record s1 { pulsing = clear s1.pulsing over } | fail e ↦ s1 ]

  unfoldable pub end_limits : ℕ → Ctrl World → Ctrl World
  unfolding expired
  end_limits now s =
      let over = expired now s in
      if over == 0
      then s
      else let (s1, status) = commit hw s (clear s.mask over) in
        elim status [ ok ↦ record s1 { limited = clear s1.limited over } | fail e ↦ s1 ]

  -- The new state, and `fired` as the calls of the listeners read it.
  unfoldable pub fire_pending : ℕ → Ctrl World → Ctrl World × ℕ
  fire_pending now s =
      let (pending, fired) = fire_loop now s channels in
      let s0 = record s { pending_on = pending } in
      if fired == 0
      then (s0, 0)
      else let (s1, status) = commit hw s0 (bit_or s0.mask fired) in
        elim status [
          | ok ↦ (track_max_on hw (fired_loop now fired channels s1) s.mask fired, fired)
          | fail e ↦ (s1, 0)
        ]

  unfoldable pub save_when_due : ℕ → Ctrl World → Ctrl World
  save_when_due now s =
      if s.save_pending && leb save_delay_ms (sub32 now s.last_save_ms)
      then (let (w, status) = hw.store.save s.world (bit_and s.mask (hold_mask s.cfg)) in
          elim status [
            | ok ↦ record s { world = w; save_pending = false; last_save_ms = now }
            | fail e ↦ record s { world = w; last_save_ms = now }
          ])
      else s

  -- relay_ctrl_tick
  unfoldable pub tick : Ctrl World → Ctrl World × List Notice
  tick s =
      let now = hw.now_ms s.world in
      let s1 = end_pulses now s in
      let s2 = end_limits now s1 in
      let (s3, fired) = fire_pending now s2 in
      let s4 = save_when_due now s3 in
      (
        s4,
        notify s.listeners (reported s s.mask) (reported s s1.mask) Source.pulse_end
            ++ (notify s.listeners (reported s s1.mask) (reported s s2.mask) max_on
                ++ fired_notices s2.pending_on_src s.listeners fired (reported s s3.mask) channels),
      )
