-- ===== src/Relay/Mirror.antt =====
-- The coils that relay_ctrl.c believes to be on are those that the expander drives.
use signalk_esp_os_8relay.Base.{
  ℕ, ◌-◌, ◌==◌, Bool, false, not, ◌&&◌, ◌≡◌, inl, inr, sym, ◌∙◌, bit_or, arith, Bool-cases,
}
use signalk_esp_os_8relay.Base.Bits.{test, bit, clear, not8, meets}
use signalk_esp_os_8relay.Board.{ok}
use signalk_esp_os_8relay.Tca9554.{reg_output, write_outputs}
use signalk_esp_os_8relay.Tca9554.Laws.{Chip, write_outputs-registers}
use signalk_esp_os_8relay.Relay.State.{Hw, Ctrl, Source, to_reg, hold_mask, interlock_partner_bit}
use signalk_esp_os_8relay.Relay.Commit.{write_twice, commit}
use signalk_esp_os_8relay.Relay.Notify.{is_channel}
use signalk_esp_os_8relay.Relay.Switch.{
  Request, start_pulse, coil_wanted, switch_off, switch_over, switch_on, drive, set_or_toggle,
  fail_safe, sk_lost,
}
use package.signalk_esp_os_8relay.Relay.Frame.{Status-cases, track_max_on-Tracks}

-- Unless the fault is raised, the output register holds the coils of `mask`.
abbrev pub Mirrored : {World : Type 0} → (World → ℕ → ℕ) → Ctrl World → Type 0
Mirrored registers s = s.i2c_fault ≡ false → registers s.world reg_output ≡ to_reg s.mask

module _ {World : Type 0} (hw : Hw World) (registers : World → ℕ → ℕ)
    (chip : Chip hw.expander registers) where
  write_twice-registers :
      (w : World) (v : ℕ)
      → (write_twice hw w v).1 ≡ ok
      → registers (write_twice hw w v).0 reg_output ≡ v
  unfolding write_twice
  write_twice-registers w v h = elim (Status-cases (write_outputs hw.expander w v).1) [
    | inl e ↦ ground (arith, e, write_outputs-registers hw.expander registers chip w v e)
    | inr (f, e) ↦ ground (
      arith,
      e,
      write_outputs-registers hw.expander registers chip (write_outputs hw.expander w v).0 v,
    )
  ]

  commit-Mirrored :
      (s : Ctrl World) (t : ℕ) → Mirrored registers s → Mirrored registers (commit hw s t).0
  unfolding commit
  commit-Mirrored s t m = elim (Bool-cases (t == s.mask)) [
    | inl same ↦ rw same m
    | inr other ↦ elim (Status-cases (write_twice hw s.world (to_reg t)).1) [
      | inl e ↦ ground (arith, e, write_twice-registers s.world (to_reg t) e)
      | inr (f, e) ↦ ground (arith, e)
    ]
  ]

  -- The world, the coils and the fault are the same.
  record Alike (s s' : Ctrl World) : Type 0 where
    world : s'.world ≡ s.world
    mask : s'.mask ≡ s.mask
    i2c_fault : s'.i2c_fault ≡ s.i2c_fault

  Alike-Mirrored : (s s' : Ctrl World) → Alike s s' → Mirrored registers s → Mirrored registers s'
  Alike-Mirrored s s' a m g = rw (a.world, a.mask) (m (sym a.i2c_fault ∙ g))

  switch_off-Alike :
      (i : ℕ) (s : Ctrl World)
      → Alike
          (commit hw
            (record s { pending_on = clear s.pending_on (bit i) })
            (clear s.mask (bit i))).0
          (switch_off hw i s).0
  unfolding switch_off
  switch_off-Alike i s =
      let (s1, status) =
        commit hw (record s { pending_on = clear s.pending_on (bit i) }) (clear s.mask (bit i)) in
      let t = track_max_on-Tracks hw (record s1 { pulsing = clear s1.pulsing (bit i) }) s.mask 0 in
      record {
        world = ground (arith, t.world);
        mask = ground (arith, t.mask);
        i2c_fault = ground (arith, t.i2c_fault);
      }

  switch_on-Alike :
      (i : ℕ) (s : Ctrl World) → Alike (commit hw s (bit_or s.mask (bit i))).0 (switch_on hw i s).0
  unfolding switch_on
  switch_on-Alike i s =
      let (s1, status) = commit hw s (bit_or s.mask (bit i)) in
      let t = track_max_on-Tracks hw s1 s.mask (bit i) in
      let p = track_max_on-Tracks hw (start_pulse (hw.now_ms s1.world) i s1) s.mask (bit i) in
      record {
        world = ground (arith, t.world, p.world);
        mask = ground (arith, t.mask, p.mask);
        i2c_fault = ground (arith, t.i2c_fault, p.i2c_fault);
      }

  switch_over-Alike :
      (i : ℕ) (src : Source) (s : Ctrl World)
      → Alike
          (commit hw s (clear s.mask (interlock_partner_bit s.cfg i))).0
          (switch_over hw i src s).0
  unfolding switch_over
  switch_over-Alike i src s =
      let partner = interlock_partner_bit s.cfg i in
      let (s1, status) = commit hw s (clear s.mask partner) in
      let t =
        track_max_on-Tracks hw
          (record s1 {
            pulsing = clear s1.pulsing partner;
            pending_on = clear s1.pending_on partner;
          })
          s.mask 0 in
      record {
        world = ground (arith, t.world);
        mask = ground (arith, t.mask);
        i2c_fault = ground (arith, t.i2c_fault);
      }

  fail_safe-Alike :
      (s : Ctrl World)
      → Alike (commit hw s (clear s.mask (not8 (hold_mask s.cfg)))).0 (fail_safe hw s)
  unfolding fail_safe
  fail_safe-Alike s =
      let off = not8 (hold_mask s.cfg) in
      let (s1, status) = commit hw s (clear s.mask off) in
      let t = track_max_on-Tracks hw (record s1 { pulsing = clear s1.pulsing off }) s.mask 0 in
      record {
        world = ground (arith, t.world);
        mask = ground (arith, t.mask);
        i2c_fault = ground (arith, t.i2c_fault);
      }

  module _ (s : Ctrl World) (m : Mirrored registers s) where
    drive-Mirrored : (i : ℕ) (on : Bool) (src : Source) → Mirrored registers (drive hw i on src s).0
    unfolding drive
    drive-Mirrored i on src =
        let partner = interlock_partner_bit s.cfg i in
        let s0 = record s { pending_on = clear s.pending_on (bit i) } in
        let off =
          Alike-Mirrored _ _ (switch_off-Alike i s) (commit-Mirrored s0 (clear s.mask (bit i)) m) in
        let over =
          Alike-Mirrored _ _ (switch_over-Alike i src s)
            (commit-Mirrored s (clear s.mask partner) m) in
        let up =
          Alike-Mirrored _ _ (switch_on-Alike i s) (commit-Mirrored s (bit_or s.mask (bit i)) m) in
        elim (Bool-cases (not on)) [
          | inl e ↦ rw e off
          | inr e ↦ elim (Bool-cases (not (partner == 0) && meets s.mask partner)) [
            | inl h ↦ rw (e, h) over
            | inr h ↦ elim (Bool-cases (not (test s.pending_on i))) [
              | inl k ↦ rw (e, h, k) up
              | inr k ↦ rw (e, h, k) m
            ]
          ]
        ]

    -- If the output register of the expander holds the coils that are believed to be on, or the
    -- fault is raised, so it is after a command to any relay, from any source, whether the writes
    -- succeed or fail: this for an expander whose reads that succeed return the register and change
    -- none, and whose acknowledged writes leave the other registers alone.
    pub set_or_toggle-Mirrored :
        (channel : ℕ) (request : Request) (src : Source)
        → Mirrored registers (set_or_toggle hw s channel request src).0
    unfolding set_or_toggle
    set_or_toggle-Mirrored channel request src = elim (Bool-cases (is_channel channel)) [
      | inl e ↦ rw e (drive-Mirrored (channel - 1) (coil_wanted hw s (channel - 1) request) src)
      | inr e ↦ rw e m
    ]

    -- If the output register of the expander holds the coils that are believed to be on, or the
    -- fault is raised, so it is after the fail-safe on the loss of SignalK: this for an expander
    -- whose reads that succeed return the register and change none, and whose acknowledged writes
    -- leave the other registers alone.
    pub sk_lost-Mirrored : Mirrored registers (sk_lost hw s).0
    unfolding sk_lost
    sk_lost-Mirrored =
        Alike-Mirrored _ _ (fail_safe-Alike s)
          (commit-Mirrored s (clear s.mask (not8 (hold_mask s.cfg))) m)
