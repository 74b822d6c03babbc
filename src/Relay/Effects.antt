-- ===== src/Relay/Effects.antt =====
-- What each branch of set_or_toggle() leaves in the masks, when its write succeeds and when it
-- fails.
use signalk_esp_os_8relay.Base.{ℕ, ◌==◌, if◌then◌else◌, ◌≡◌, bit_or, ap, arith}
use signalk_esp_os_8relay.Base.Bits.{bit, not8, clear}
use signalk_esp_os_8relay.Board.{ok, fail, Fault}
use signalk_esp_os_8relay.Relay.State.{
  Hw, Ctrl, Source, is_momentary, hold_mask, interlock_partner_bit,
}
use signalk_esp_os_8relay.Relay.Commit.{commit}
use signalk_esp_os_8relay.Relay.Switch.{start_pulse, switch_off, switch_over, switch_on, fail_safe}
use signalk_esp_os_8relay.Relay.Frame.{commit-Keeps, commit-ok, commit-fail, track_max_on-Tracks}

-- The settings are the same and the masks are these.
pub record Masks {World : Type 0} (s s' : Ctrl World) (mask pending pulsing : ℕ) : Type 0 where
  pub cfg : s'.cfg ≡ s.cfg
  pub coils : s'.mask ≡ mask
  pub waiting : s'.pending_on ≡ pending
  pub pulses : s'.pulsing ≡ pulsing

module _ {World : Type 0} (hw : Hw World) (s : Ctrl World) where
  pub switch_off-ok :
      (i : ℕ)
      → (switch_off hw i s).1 ≡ ok
      → Masks s
          (switch_off hw i s).0
          (clear s.mask (bit i))
          (clear s.pending_on (bit i))
          (clear s.pulsing (bit i))
  unfolding switch_off
  switch_off-ok i h =
      let s0 = record s { pending_on = clear s.pending_on (bit i) } in
      let r = commit hw s0 (clear s.mask (bit i)) in
      ground (
        arith,
        commit-Keeps hw s0 (clear s.mask (bit i)),
        commit-ok hw s0 (clear s.mask (bit i)),
        track_max_on-Tracks hw (record r.0 { pulsing = clear r.0.pulsing (bit i) }) s.mask 0,
      )

  pub switch_off-fail :
      (i : ℕ) (e : Fault)
      → (switch_off hw i s).1 ≡ fail e
      → Masks s (switch_off hw i s).0 s.mask (clear s.pending_on (bit i)) s.pulsing
  unfolding switch_off
  switch_off-fail i e h =
      let s0 = record s { pending_on = clear s.pending_on (bit i) } in
      ground (
        arith,
        commit-Keeps hw s0 (clear s.mask (bit i)),
        commit-fail hw s0 (clear s.mask (bit i)) e,
      )

  pub switch_over-ok :
      (i : ℕ) (src : Source)
      → (switch_over hw i src s).1 ≡ ok
      → let partner = interlock_partner_bit s.cfg i in
        Masks s
          (switch_over hw i src s).0
          (clear s.mask partner)
          (bit_or (clear s.pending_on partner) (bit i))
          (clear s.pulsing partner)
  unfolding switch_over
  switch_over-ok i src h =
      let partner = interlock_partner_bit s.cfg i in
      let r = commit hw s (clear s.mask partner) in
      let s2 = record r.0 {
        pulsing = clear r.0.pulsing partner;
        pending_on = clear r.0.pending_on partner;
      } in
      ground (
        arith,
        commit-Keeps hw s (clear s.mask partner),
        commit-ok hw s (clear s.mask partner),
        track_max_on-Tracks hw s2 s.mask 0,
      )

  pub switch_over-fail :
      (i : ℕ) (src : Source) (e : Fault)
      → (switch_over hw i src s).1 ≡ fail e
      → Masks s (switch_over hw i src s).0 s.mask s.pending_on s.pulsing
  unfolding switch_over
  switch_over-fail i src e h =
      let target = clear s.mask (interlock_partner_bit s.cfg i) in
      ground (arith, commit-Keeps hw s target, commit-fail hw s target e)

  -- The masks of `switch_on`: clearing the bits of no partner changes nothing.
  pub switch_on-ok :
      (i : ℕ)
      → (switch_on hw i s).1 ≡ ok
      → let partner = interlock_partner_bit s.cfg i in
        Masks s
          (switch_on hw i s).0
          (bit_or s.mask (bit i))
          (if partner == 0 then s.pending_on else clear s.pending_on partner)
          (if is_momentary s.cfg i then bit_or s.pulsing (bit i) else s.pulsing)
  unfolding switch_on
  switch_on-ok i h =
      let target = bit_or s.mask (bit i) in
      let r = commit hw s target in
      let s2 = if is_momentary r.0.cfg i then start_pulse (hw.now_ms r.0.world) i r.0 else r.0 in
      ground (
        arith,
        commit-Keeps hw s target,
        commit-ok hw s target,
        track_max_on-Tracks hw s2 s.mask (bit i),
        ap (λ c. is_momentary c i) (commit-Keeps hw s target).cfg,
      )

  pub switch_on-fail :
      (i : ℕ) (e : Fault)
      → (switch_on hw i s).1 ≡ fail e
      → Masks s (switch_on hw i s).0 s.mask s.pending_on s.pulsing
  unfolding switch_on
  switch_on-fail i e h =
      let target = bit_or s.mask (bit i) in
      ground (arith, commit-Keeps hw s target, commit-fail hw s target e)

  -- The write of relay_ctrl_sk_lost(): it drops the coils that do not hold.
  abbrev pub safe_target : ℕ
  safe_target = clear s.mask (not8 (hold_mask s.cfg))

  pub fail_safe-ok :
      (commit hw s safe_target).1 ≡ ok
      → let off = not8 (hold_mask s.cfg) in
        Masks s (fail_safe hw s) (clear s.mask off) (clear s.pending_on off) (clear s.pulsing off)
  unfolding fail_safe
  fail_safe-ok h =
      let off = not8 (hold_mask s.cfg) in
      let r = commit hw s safe_target in
      ground (
        arith,
        commit-Keeps hw s safe_target,
        commit-ok hw s safe_target,
        track_max_on-Tracks hw (record r.0 { pulsing = clear r.0.pulsing off }) s.mask 0,
      )

  pub fail_safe-fail :
      (e : Fault)
      → (commit hw s safe_target).1 ≡ fail e
      → Masks s (fail_safe hw s) s.mask (clear s.pending_on (not8 (hold_mask s.cfg))) s.pulsing
  unfolding fail_safe
  fail_safe-fail e h = ground (arith, commit-Keeps hw s safe_target, commit-fail hw s safe_target e)
