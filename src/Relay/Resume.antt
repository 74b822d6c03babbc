-- ===== src/Relay/Resume.antt =====
-- What a boot leaves on the chip, and where it has the coils from.
use signalk_esp_os_8relay.Base.{inl, inr, ℕ, ◌==◌, Bool, true, false, ◌≡◌, ◌≢◌, sym, ap, ◌∙◌, arith}
use signalk_esp_os_8relay.Board.{Status, ok, got, failed, Fault}
use signalk_esp_os_8relay.DeviceConfig.{Config}
use signalk_esp_os_8relay.Tca9554.{all_outputs, read_outputs, reg_config, reg_output}
use signalk_esp_os_8relay.Tca9554.Laws.{
  Chip, Reply-cases, write_outputs-registers, init_outputs-registers,
}
use signalk_esp_os_8relay.Relay.State.{Hw, Ctrl, to_reg, from_reg}
use signalk_esp_os_8relay.Relay.Boot.{held_outputs, write_target, init}
use signalk_esp_os_8relay.Relay.Pairs.{WellPaired}
use signalk_esp_os_8relay.Relay.Restore.{Restored, init-Started}

-- Which coils a boot finds: those that the chip still drove, if its pins were all outputs, and else
-- those that the store gives, or none.
pub data Held {World : Type 0} (hw : Hw World) (registers : World → ℕ → ℕ) (w : World) (held : ℕ)
    : Type 0 where
  still_driven :
      registers w reg_config ≡ 0
      → held ≡ from_reg (registers w reg_output)
      → Held hw registers w held
  stored :
      registers w reg_config ≢ 0
      → (hw.store.load (hw.expander.read_reg w reg_config).0).1 ≡ got held
      → Held hw registers w held
  nothing_stored :
      registers w reg_config ≢ 0
      → (e : Fault) → (hw.store.load (hw.expander.read_reg w reg_config).0).1 ≡ failed e
      → held ≡ 0
      → Held hw registers w held

-- A board that has started from `s0` restores the coils that it found, and its chip drives them.
pub record Resumed {World : Type 0} (hw : Hw World) (registers : World → ℕ → ℕ) (cfg : Config)
    (s0 s : Ctrl World) : Type 0 where
  pub held : ℕ
  pub found : Held hw registers s0.world held
  pub settings : s.cfg ≡ cfg
  pub restored : Restored held s
  pub driven : registers s.world reg_output ≡ to_reg s.mask

module _ {World : Type 0} (hw : Hw World) (registers : World → ℕ → ℕ)
    (chip : Chip hw.expander registers) where
  write_target-registers :
      (warm : Bool) (w w' : World) (mask : ℕ)
      → write_target hw warm w mask ≡ (w', ok)
      → registers w' reg_output ≡ to_reg mask
  unfolding write_target
  write_target-registers true w w' mask e = rw (← ap (λ (r : World × Status). r.0) e) (
      write_outputs-registers hw.expander registers chip w (to_reg mask)
        (ap (λ (r : World × Status). r.1) e))
  write_target-registers false w w' mask e = rw (← ap (λ (r : World × Status). r.0) e) (
      init_outputs-registers hw.expander registers chip w (to_reg mask)
        (ap (λ (r : World × Status). r.1) e))

  -- What the probe says of the register of the directions, and where it leaves the world.
  probe_faithful :
      (w w' : World) (warm : Bool)
      → all_outputs hw.expander w ≡ (w', got warm)
      → (w' ≡ (hw.expander.read_reg w reg_config).0) × ((registers w reg_config == 0) ≡ warm)
  unfolding all_outputs
  probe_faithful w w' warm e = elim (Reply-cases (hw.expander.read_reg w reg_config).1) [
    | inl (v, read) ↦ ground (arith, e, read, chip.read_faithful w reg_config v read)
    | inr (f, read) ↦ ground (arith, e, read)
  ]

  found_by :
      (w w' w'' : World) (warm : Bool) (held : ℕ)
      → all_outputs hw.expander w ≡ (w', got warm)
      → held_outputs hw warm w' ≡ (w'', got held)
      → Held hw registers w held
  unfolding held_outputs read_outputs
  found_by w w' w'' true held probe read =
      let (there, zero) = probe_faithful w w' true probe in
      elim (Reply-cases (hw.expander.read_reg w' reg_output).1) [
        | inl (v, e) ↦
            let drives : registers w reg_output ≡ v =
              sym (chip.read_passive w reg_config reg_output)
              ∙ (ap (λ (u : World). registers u reg_output) (sym there)
                  ∙ chip.read_faithful w' reg_output v e) in
            let same : held ≡ from_reg v = ground (arith, read, e) in
            still_driven (ground (arith, zero)) (same ∙ ap from_reg (sym drives))
        | inr (f, e) ↦ absurd (ground (arith, read, e))
      ]
  found_by w w' w'' false held probe read =
      let (there, other) = probe_faithful w w' false probe in
      let cold : registers w reg_config ≢ 0 = λ e. ground (arith, other, e) in
      let load = ap (λ (u : World). (hw.store.load u).1) (sym there) in
      elim (Reply-cases (hw.store.load w').1) [
        | inl (v, e) ↦
            let same : v ≡ held = ground (arith, read, e) in
            stored cold (load ∙ (e ∙ ap (λ (m : ℕ). got m) same))
        | inr (f, e) ↦
            let same : held ≡ 0 = ground (arith, read, e) in nothing_stored cold f (load ∙ e) same
      ]

  -- Under settings that pair relays soundly, a boot that succeeds switches on exactly the relays
  -- that it found on, whose policy is to hold and whose interlock partner was not found on and
  -- holding as well: found on are those that the output register drove if the pins were all
  -- outputs, else those that the store gives, and none if it gives no mask. The output register
  -- then holds the coils that are believed to be on, nothing waits, no pulse runs, and of the
  -- relays that are on exactly those with a maximum on-time have that timer running. This for an
  -- expander whose reads that succeed return the register and change none, and whose acknowledged
  -- writes leave the other registers alone.
  pub init-Resumed :
      (cfg : Config)
      → WellPaired cfg
      → (s0 : Ctrl World) (lock : Bool) → (init hw lock cfg s0).1 ≡ ok
      → Resumed hw registers cfg s0 (init hw lock cfg s0).0
  init-Resumed cfg pairs s0 lock done =
      let st = init-Started hw cfg pairs s0 lock done in
      record {
        held = st.held;
        found = found_by s0.world st.world_probed st.world_read st.warm st.held st.probed st.read;
        settings = st.settings;
        restored = st.restored;
        driven = write_target-registers st.warm st.world_read _ _ st.written;
      }
