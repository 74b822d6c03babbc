-- ===== src/Relay/Restore.antt =====
-- What relay_ctrl_init() leaves when it succeeds.
use signalk_esp_os_8relay.Base.{
  ℕ, ◌<◌, ◌==◌, Bool, true, false, not, ◌&&◌, ◌≡◌, ◌≢◌, refl, sym, ap, ◌∙◌, bit_and, arith,
}
use mathlib.Core.Path.{subst}
use signalk_esp_os_8relay.Base.Bits.{test, test-zero, test-bit_and}
use signalk_esp_os_8relay.Base.Masks.{mask_of, test-mask_of}
use signalk_esp_os_8relay.Board.{channels, Status, Reply, ok, fail, got, failed, no_mem, Fault}
use signalk_esp_os_8relay.DeviceConfig.{Config, effective_failsafe}
use signalk_esp_os_8relay.Tca9554.{all_outputs}
use signalk_esp_os_8relay.Relay.State.{
  Hw, Ctrl, is_momentary, is_hold, hold_mask, max_on_ms, clear_interlock_conflicts,
}
use signalk_esp_os_8relay.Relay.Commit.{track_max_on, report_interlock_health}
use signalk_esp_os_8relay.Relay.Boot.{
  prepare, held_outputs, write_target, settle, settle_from, restore, restore_from, boot_from, init,
}
use signalk_esp_os_8relay.Relay.Frame.{Tracks, track_max_on-Tracks, track_max_on-limited}
use signalk_esp_os_8relay.Relay.Pairs.{WellPaired, partner_in, clear_conflicts-out}
use signalk_esp_os_8relay.Relay.Exclusive.Switch.{Interlocked}
use signalk_esp_os_8relay.Relay.Timed.{Timed}

-- The coils of a board that has just started: those of `held` whose policy is to hold, less the
-- pairs that would be on together.
pub record Restored {World : Type 0} (held : ℕ) (s : Ctrl World) : Type 0 where
  pub coils :
      (j : ℕ)
      → j < 8
      → test s.mask j ≡ (
          (test held j && is_hold s.cfg j)
          && not (partner_in (bit_and held (hold_mask s.cfg)) (s.cfg.relays j).interlock))
  pub waiting : s.pending_on ≡ 0
  pub pulses : s.pulsing ≡ 0
  pub limits : (j : ℕ) → j < 8 → test s.limited j ≡ (test s.mask j && not (max_on_ms s.cfg j == 0))

test-hold_mask :
    (cfg : Config) (held j : ℕ)
    → j < 8
    → test (bit_and held (hold_mask cfg)) j ≡ (test held j && is_hold cfg j)
unfolding hold_mask
test-hold_mask cfg held j h = ground (
  arith,
  test-bit_and j held (mask_of channels (is_hold cfg)),
  test-mask_of channels (is_hold cfg) j,
)

-- A momentary relay never holds.
hold-momentary : (cfg : Config) (j : ℕ) → (is_hold cfg j && is_momentary cfg j) ≡ false
unfolding is_hold is_momentary effective_failsafe
hold-momentary cfg j = ground arith

module _ {World : Type 0} {s : Ctrl World} (held : ℕ) (pairs : WellPaired s.cfg)
    (r : Restored held s) where
  Restored-Interlocked : Interlocked s
  Restored-Interlocked = record {
    pairs = pairs;
    exclusive = record {
      coils = λ i p h e.
          let hp = pairs.in_range i p h e in
          let back = pairs.mutual_ i p h e in
          let m = bit_and held (hold_mask s.cfg) in
          ground (
            arith,
            r.coils i h,
            r.coils p hp,
            ap (partner_in m) e,
            ap (partner_in m) back,
            test-hold_mask s.cfg held i h,
            test-hold_mask s.cfg held p hp,
          );
      waits = λ i p h e. rw (r.waiting, test-zero i) refl;
      idle = λ i h. rw (r.waiting, test-zero i) refl;
    };
  }

  Restored-Timed : Timed s
  Restored-Timed = record {
    pulses = λ i h. ground (arith, r.coils i h, hold-momentary s.cfg i);
    limits = λ i h. ground (arith, r.limits i h);
  }

not_ok : (e : Fault) → fail e ≢ ok
not_ok e h = cc

-- The parts of the boot are about any state that the settings were just taken over in.
record Fresh {World : Type 0} (cfg : Config) (s : Ctrl World) : Type 0 where
  settings : s.cfg ≡ cfg
  pulses : s.pulsing ≡ 0
  limits : s.limited ≡ 0
  waiting : s.pending_on ≡ 0

module _ {World : Type 0} (hw : Hw World) (cfg : Config) (pairs : WellPaired cfg) where
  -- The mask that restore() writes.
  abbrev target : ℕ → ℕ
  target held = (clear_interlock_conflicts cfg (bit_and held (hold_mask cfg))).0

  module _ (warm : Bool) (w : World) (held c : ℕ) (s : Ctrl World) (f : Fresh cfg s) where
    abbrev written : Ctrl World
    written = record s { world = w; mask = target held }

    abbrev settled : Ctrl World
    settled = settle hw warm w (target held) c s

    settled-Tracks : Tracks written (track_max_on hw written 0 0)
    settled-Tracks = track_max_on-Tracks hw written 0 0

    settled-cfg : settled.cfg ≡ cfg
    unfolding settle report_interlock_health
    settled-cfg = settled-Tracks.cfg ∙ f.settings

    settled-coils :
        (j : ℕ)
        → j < 8
        → test settled.mask j ≡ (
            (test held j && is_hold cfg j)
            && not (partner_in (bit_and held (hold_mask cfg)) (cfg.relays j).interlock))
    unfolding settle report_interlock_health
    settled-coils j h =
        ap (λ m. test m j) settled-Tracks.mask
        ∙ (clear_conflicts-out cfg pairs (bit_and held (hold_mask cfg)) j h
            ∙ ground (arith, test-hold_mask cfg held j h))

    settled-limits :
        (j : ℕ)
        → j < 8
        → test settled.limited j ≡ (test settled.mask j && not (max_on_ms cfg j == 0))
    unfolding settle report_interlock_health
    settled-limits j h =
        track_max_on-limited hw written 0 0 j h
        ∙ ground (
          arith,
          ap (λ m. test m j) settled-Tracks.mask,
          ap (λ k. max_on_ms k j == 0) f.settings,
          test-zero j,
        )

    settled-rest : (settled.pending_on ≡ 0) × (settled.pulsing ≡ 0)
    unfolding settle report_interlock_health
    settled-rest = (settled-Tracks.pending_on ∙ f.waiting, settled-Tracks.pulsing ∙ f.pulses)

    settled-Restored : Restored held settled
    settled-Restored = record {
      coils = λ j h. rw settled-cfg (settled-coils j h);
      waiting = settled-rest.0;
      pulses = settled-rest.1;
      limits = λ j h. rw settled-cfg (settled-limits j h);
    }

-- A board that has started from `s0`: the chip said whether its pins were outputs already, what was
-- held was read from it or from the store, and the state restores that.
pub record Started {World : Type 0} (hw : Hw World) (cfg : Config) (s0 s : Ctrl World)
    : Type 0 where
  pub warm : Bool
  pub world_probed : World
  pub probed : all_outputs hw.expander s0.world ≡ (world_probed, got warm)
  pub held : ℕ
  pub world_read : World
  pub read : held_outputs hw warm world_probed ≡ (world_read, got held)
  pub written : write_target hw warm world_read s.mask ≡ (s.world, ok)
  pub settings : s.cfg ≡ cfg
  pub restored : Restored held s

module _ {World : Type 0} (hw : Hw World) where
  -- The world and the coils that the write leaves.
  settle_from-written :
      (warm : Bool) (out c : ℕ) (s : Ctrl World) (r : World × Status)
      → (settle_from hw warm out c s r).1 ≡ ok
      → (r ≡ ((settle_from hw warm out c s r).0.world, ok))
        × ((settle_from hw warm out c s r).0.mask ≡ out)
  unfolding settle_from settle report_interlock_health
  settle_from-written warm out c s (w, ok) done =
      let kept = track_max_on-Tracks hw (record s { world = w; mask = out }) 0 0 in
      (ap (λ (v : World). (v, ok)) (sym kept.world), kept.mask)
  settle_from-written warm out c s (w, fail e) done = absurd (not_ok e done)

  restore-written :
      (warm : Bool) (held : ℕ) (s : Ctrl World)
      → (restore hw warm held s).1 ≡ ok
      → write_target hw warm s.world (restore hw warm held s).0.mask
        ≡ ((restore hw warm held s).0.world, ok)
  unfolding restore
  restore-written warm held s done =
      let (out, c) = clear_interlock_conflicts s.cfg (bit_and held (hold_mask s.cfg)) in
      let (w, m) = settle_from-written warm out c s (write_target hw warm s.world out) done in
      ap (write_target hw warm s.world) m ∙ w

  settle_from-Restored :
      (warm : Bool) (held c : ℕ) (s : Ctrl World) (r : World × Status) (pairs : WellPaired s.cfg)
      → Fresh s.cfg s
      → (settle_from hw warm (target hw s.cfg pairs held) c s r).1 ≡ ok
      → ((settle_from hw warm (target hw s.cfg pairs held) c s r).0.cfg ≡ s.cfg)
        × Restored held (settle_from hw warm (target hw s.cfg pairs held) c s r).0
  unfolding settle_from
  settle_from-Restored warm held c s (w, ok) pairs f done = (
    settled-cfg hw s.cfg pairs warm w held c s f,
    settled-Restored hw s.cfg pairs warm w held c s f,
  )
  settle_from-Restored warm held c s (w, fail e) pairs f done = absurd (not_ok e done)

  restore-Restored :
      (warm : Bool) (held : ℕ) (s : Ctrl World)
      → WellPaired s.cfg
      → Fresh s.cfg s
      → (restore hw warm held s).1 ≡ ok
      → ((restore hw warm held s).0.cfg ≡ s.cfg) × Restored held (restore hw warm held s).0
  unfolding restore
  restore-Restored warm held s pairs f done =
      let (out, c) = clear_interlock_conflicts s.cfg (bit_and held (hold_mask s.cfg)) in
      settle_from-Restored warm held c s (write_target hw warm s.world out) pairs f done

  module _ (cfg : Config) (pairs : WellPaired cfg) (s0 : Ctrl World) where
    prepare-Fresh : (w : World) → Fresh cfg (record (prepare hw cfg s0) { world = w })
    unfolding prepare
    prepare-Fresh w = record { settings = refl; pulses = refl; limits = refl; waiting = refl }

    restore_from-Started :
        (warm : Bool) (w : World) (r : World × Reply ℕ)
        → all_outputs hw.expander s0.world ≡ (w, got warm)
        → held_outputs hw warm w ≡ r
        → (restore_from hw warm (record (prepare hw cfg s0) { world = w }) r).1 ≡ ok
        → Started hw cfg s0 (restore_from hw warm (record (prepare hw cfg s0) { world = w }) r).0
    unfolding restore_from prepare
    restore_from-Started warm w (w', got held) probe e done =
        let s1 = record (prepare hw cfg s0) { world = w' } in
        let (c, r) = restore-Restored warm held s1 pairs (prepare-Fresh w') done in
        record {
          warm = warm;
          world_probed = w;
          probed = probe;
          held = held;
          world_read = w';
          read = e;
          written = restore-written warm held s1 done;
          settings = c;
          restored = r;
        }
    restore_from-Started warm w (w', failed e) probe _ done = absurd (not_ok e done)

    boot_from-Started :
        (r : World × Reply Bool)
        → all_outputs hw.expander s0.world ≡ r
        → (boot_from hw (prepare hw cfg s0) r).1 ≡ ok
        → Started hw cfg s0 (boot_from hw (prepare hw cfg s0) r).0
    unfolding boot_from
    boot_from-Started (w, got warm) e done =
        restore_from-Started warm w (held_outputs hw warm w) e refl done
    boot_from-Started (w, failed f) e done = absurd (not_ok f done)

    -- A boot that succeeds has gone through all its parts.
    pub init-Started :
        (lock : Bool) → (init hw lock cfg s0).1 ≡ ok → Started hw cfg s0 (init hw lock cfg s0).0
    unfolding init
    init-Started true done = boot_from-Started (all_outputs hw.expander s0.world) refl done
    init-Started false done = absurd (not_ok no_mem done)

    -- A boot that succeeds leaves the interlock intact (every effective partner is another relay of
    -- the board that names this one back; of two partners at most one coil is on and at most one
    -- waits; no relay that waits is on) under settings that pair relays soundly, whatever the chip
    -- or the store held.
    pub init-Interlocked :
        (lock : Bool) → (init hw lock cfg s0).1 ≡ ok → Interlocked (init hw lock cfg s0).0
    init-Interlocked lock done =
        let st = init-Started lock done in
        Restored-Interlocked st.held (subst WellPaired (sym st.settings) pairs) st.restored

    -- A boot that succeeds, under settings that pair relays soundly, leaves the timers kept (a
    -- momentary relay that is on has a running pulse, and a relay with a maximum on-time that is on
    -- has that timer running).
    pub init-Timed : (lock : Bool) → (init hw lock cfg s0).1 ≡ ok → Timed (init hw lock cfg s0).0
    init-Timed lock done =
        let st = init-Started lock done in
        Restored-Timed st.held (subst WellPaired (sym st.settings) pairs) st.restored
