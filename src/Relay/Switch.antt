-- ===== src/Relay/Switch.antt =====
-- set_or_toggle() with its two callers, and relay_ctrl_sk_lost().
use signalk_esp_os_8relay.Base.{ℕ, ◌-◌, if◌then◌else◌, Bool, not, ◌&&◌, ◌==◌, xor, List, [], bit_or}
use signalk_esp_os_8relay.Base.Bits.{test, bit, not8, clear, meets}
use signalk_esp_os_8relay.Base.Words.{add32}
use signalk_esp_os_8relay.Board.{Status, ok, fail, invalid_arg}
use signalk_esp_os_8relay.Relay.State.{
  Hw, Ctrl, Source, failsafe, Notice, update, is_momentary, hold_mask, interlock_partner_bit,
}
use signalk_esp_os_8relay.Relay.Commit.{commit, track_max_on}
use signalk_esp_os_8relay.Relay.Notify.{notify, reported, is_channel}

-- `on_req`: below 0 for the opposite of now, else the logical state wanted.
pub data Request : Type 0 where
  opposite : Request
  set_to : Bool → Request

-- `s.pulse_end[i] = now + pulse_ms; s.pulsing |= bit;`
unfoldable pub start_pulse : {World : Type 0} → ℕ → ℕ → Ctrl World → Ctrl World
start_pulse now i s = record s {
  pulse_end = update s.pulse_end i (add32 now (s.cfg.relays i).pulse_ms);
  pulsing = bit_or s.pulsing (bit i);
}

module _ {World : Type 0} (hw : Hw World) where
  -- The branch `!on`.
  unfoldable pub switch_off : ℕ → Ctrl World → Ctrl World × Status
  switch_off i s =
      let s0 = record s { pending_on = clear s.pending_on (bit i) } in
      let (s1, status) = commit hw s0 (clear s0.mask (bit i)) in
      elim status [
        | ok ↦ (track_max_on hw (record s1 { pulsing = clear s1.pulsing (bit i) }) s.mask 0, ok)
        | fail e ↦ (s1, fail e)
      ]

  -- The branch where the interlock partner's coil is on: it goes off now, and this one waits.
  unfoldable pub switch_over : ℕ → Source → Ctrl World → Ctrl World × Status
  switch_over i src s =
      let partner = interlock_partner_bit s.cfg i in
      let (s1, status) = commit hw s (clear s.mask partner) in
      elim status [
        | ok ↦
            let s2 = record s1 {
              pulsing = clear s1.pulsing partner;
              pending_on = clear s1.pending_on partner;
            } in
            let s3 = track_max_on hw s2 s.mask 0 in
            (
              record s3 {
                pending_on = bit_or s3.pending_on (bit i);
                pending_on_end =
                    update s3.pending_on_end i
                      (add32 (hw.now_ms s3.world) s3.cfg.interlock_dead_ms);
                pending_on_src = update s3.pending_on_src i src;
              },
              ok,
            )
        | fail e ↦ (s1, fail e)
      ]

  -- The branch with no conflict, the relay not waiting.
  unfoldable pub switch_on : ℕ → Ctrl World → Ctrl World × Status
  unfolding start_pulse
  switch_on i s =
      let partner = interlock_partner_bit s.cfg i in
      let (s1, status) = commit hw s (bit_or s.mask (bit i)) in
      elim status [
        | ok ↦
            let s2 = if is_momentary s1.cfg i then start_pulse (hw.now_ms s1.world) i s1 else s1 in
            let s3 = track_max_on hw s2 s.mask (bit i) in
            (
              if partner == 0 then s3 else record s3 { pending_on = clear s3.pending_on partner },
              ok,
            )
        | fail e ↦ (s1, fail e)
      ]

  -- What set_or_toggle() does under the lock, the coil level `on` decided.
  unfoldable pub drive : ℕ → Bool → Source → Ctrl World → Ctrl World × Status
  unfolding switch_off switch_over switch_on
  drive i on src s =
      let partner = interlock_partner_bit s.cfg i in
      if not on
      then switch_off i s
      else if not (partner == 0) && meets s.mask partner
      then switch_over i src s
      else if not (test s.pending_on i)
      then switch_on i s
      else (s, ok)

  -- The coil level that a request asks for.
  unfoldable pub coil_wanted : Ctrl World → ℕ → Request → Bool
  coil_wanted s i request = elim request [
    | opposite ↦ not (test s.mask i)
    | set_to on ↦ xor on (s.cfg.relays i).wired_nc
  ]

  unfoldable pub set_or_toggle :
      Ctrl World → ℕ → Request → Source → Ctrl World × Status × List Notice
  unfolding drive coil_wanted
  set_or_toggle s channel request src =
      if is_channel channel
      then (let i = channel - 1 in
          let (s', status) = drive i (coil_wanted s i request) src s in
          (s', status, notify s.listeners (reported s s.mask) (reported s' s'.mask) src))
      else (s, fail invalid_arg, [])

  -- relay_ctrl_set
  unfoldable pub set : Ctrl World → ℕ → Bool → Source → Ctrl World × Status × List Notice
  unfolding set_or_toggle
  set s channel on src = set_or_toggle s channel (set_to on) src

  -- relay_ctrl_toggle
  unfoldable pub toggle : Ctrl World → ℕ → Source → Ctrl World × Status × List Notice
  unfolding set_or_toggle
  toggle s channel src = set_or_toggle s channel opposite src

  -- What relay_ctrl_sk_lost() does under the lock.
  unfoldable pub fail_safe : Ctrl World → Ctrl World
  fail_safe s =
      let off = not8 (hold_mask s.cfg) in
      let (s1, status) = commit hw s (clear s.mask off) in
      let s2 : Ctrl World = elim status [
        | ok ↦ track_max_on hw (record s1 { pulsing = clear s1.pulsing off }) s.mask 0
        | fail e ↦ s1
      ] in
      record s2 { pending_on = clear s2.pending_on off }

  -- relay_ctrl_sk_lost
  unfoldable pub sk_lost : Ctrl World → Ctrl World × List Notice
  unfolding fail_safe
  sk_lost s =
      let s' = fail_safe s in
      (s', notify s.listeners (reported s s.mask) (reported s' s'.mask) failsafe)
