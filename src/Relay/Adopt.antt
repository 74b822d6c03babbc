-- ===== src/Relay/Adopt.antt =====
-- What relay_ctrl_update_config() leaves in the masks: first as it takes the settings over, then as
-- it parts the pairs that are on together.
use signalk_esp_os_8relay.Base.{
  ℕ, zero, suc, ◌<◌, ◌==◌, ltb, if◌then◌else◌, true, not, ◌&&◌, ◌||◌, ◌≡◌, ◌⊎◌, inl, inr, refl, ap,
  ◌∙◌, same_at, ==_iff, Bool-cases, arith,
}
use signalk_esp_os_8relay.Base.Bits.{test, clear}
use signalk_esp_os_8relay.Base.Masks.{test-set_bit, test-clear-bit, test-mask_of}
use signalk_esp_os_8relay.Board.{channels}
use signalk_esp_os_8relay.DeviceConfig.{Config}
use signalk_esp_os_8relay.Relay.State.{
  Hw, Ctrl, is_momentary, hold_mask, max_on_ms, clear_interlock_conflicts,
}
use signalk_esp_os_8relay.Relay.Commit.{commit, report_interlock_health}
use signalk_esp_os_8relay.Relay.Update.{
  repulse_channel, repulse_loop, changed_limit, adopt_config, part_conflicts,
}
use signalk_esp_os_8relay.Relay.Frame.{
  Tracks, limit_runs, commit-Keeps, commit-ok, commit-fail, track_max_on-Tracks,
  track_max_on-limited, Status-cases,
}
use signalk_esp_os_8relay.Relay.Limits.{LimitsTracked, tracked}

-- What the first loop leaves.
record Repulsed {World : Type 0} (n : ℕ) (s s' : Ctrl World) : Type 0 where
  cfg : s'.cfg ≡ s.cfg
  coils : s'.mask ≡ s.mask
  waiting : s'.pending_on ≡ s.pending_on
  limits : s'.limited ≡ s.limited
  fault : s'.i2c_fault ≡ s.i2c_fault
  pulses :
      (j : ℕ)
      → j < 8
      → test s'.pulsing j ≡ (
          if ltb j n
          then is_momentary s.cfg j && (test s.pulsing j || test s.mask j)
          else test s.pulsing j)

module _ {World : Type 0} (now : ℕ) where
  Repulsed-suc :
      (n : ℕ) (s s' : Ctrl World) → Repulsed n s s' → Repulsed (suc n) s (repulse_channel now n s')
  unfolding repulse_channel
  Repulsed-suc n s s' f = record {
    cfg = ground (arith, f.cfg);
    coils = ground (arith, f.coils);
    waiting = ground (arith, f.waiting);
    limits = ground (arith, f.limits);
    fault = ground (arith, f.fault);
    pulses = λ j h. ground (
      arith,
      f.pulses j h,
      ap (λ c. is_momentary c n) f.cfg,
      ap (λ m. test m n) f.coils,
      test-set_bit s'.pulsing n j,
      test-clear-bit s'.pulsing n j h,
      same_at (is_momentary s.cfg) n j,
      same_at (test s.mask) n j,
      same_at (test s'.pulsing) n j,
    );
  }

  repulse_loop-Repulsed : (n : ℕ) (s : Ctrl World) → Repulsed n s (repulse_loop now n s)
  unfolding repulse_loop
  repulse_loop-Repulsed zero s = record {
    cfg = refl;
    coils = refl;
    waiting = refl;
    limits = refl;
    fault = refl;
    pulses = λ j h. ground arith;
  }
  repulse_loop-Repulsed (suc n) s =
      Repulsed-suc n s (repulse_loop now n s) (repulse_loop-Repulsed n s)

-- The settings taken over: the coils and the waits are as before, every momentary relay that is on
-- has a pulse and every latching one has none.
pub record Adopted {World : Type 0} (cfg : Config) (s s' : Ctrl World) : Type 0 where
  pub settings : s'.cfg ≡ cfg
  pub coils : s'.mask ≡ s.mask
  pub waiting : s'.pending_on ≡ s.pending_on
  pub fault : s'.i2c_fault ≡ s.i2c_fault
  pub pulses :
      (j : ℕ)
      → j < 8
      → test s'.pulsing j ≡ (is_momentary cfg j && (test s.pulsing j || test s.mask j))
  pub limits :
      (j : ℕ)
      → j < 8
      → test s'.limited j
        ≡ limit_runs
            (test s.mask j)
            (max_on_ms cfg j == 0)
            (test s.mask j)
            (not (max_on_ms cfg j == max_on_ms s.cfg j))
            (test s.limited j)

module _ {World : Type 0} (hw : Hw World) (cfg : Config) (s : Ctrl World) where
  -- The states on the way.
  abbrev repulsed : Ctrl World
  repulsed = repulse_loop (hw.now_ms s.world) channels (record s { cfg = cfg })

  abbrev flagged : Ctrl World
  flagged = record repulsed {
    save_pending = repulsed.save_pending || not (hold_mask cfg == hold_mask s.cfg);
  }

  repulsed-Repulsed : Repulsed 8 (record s { cfg = cfg }) repulsed
  repulsed-Repulsed = repulse_loop-Repulsed (hw.now_ms s.world) 8 (record s { cfg = cfg })

  flagged-Tracks : Tracks flagged (adopt_config hw cfg s)
  unfolding adopt_config
  flagged-Tracks = track_max_on-Tracks hw flagged flagged.mask (changed_limit s.cfg cfg)

  adopt_config-limits :
      (j : ℕ)
      → j < 8
      → test (adopt_config hw cfg s).limited j
        ≡ limit_runs
            (test s.mask j)
            (max_on_ms cfg j == 0)
            (test s.mask j)
            (not (max_on_ms cfg j == max_on_ms s.cfg j))
            (test s.limited j)
  unfolding adopt_config changed_limit
  adopt_config-limits j h =
      track_max_on-limited hw flagged flagged.mask (changed_limit s.cfg cfg) j h
      ∙ ground (
        arith,
        ap (λ m. test m j) repulsed-Repulsed.coils,
        ap (λ m. test m j) repulsed-Repulsed.limits,
        ap (λ c. max_on_ms c j == 0) repulsed-Repulsed.cfg,
        test-mask_of channels (λ i. not (max_on_ms cfg i == max_on_ms s.cfg i)) j,
      )

  pub adopt_config-Adopted : Adopted cfg s (adopt_config hw cfg s)
  adopt_config-Adopted = record {
    settings = flagged-Tracks.cfg ∙ repulsed-Repulsed.cfg;
    coils = flagged-Tracks.mask ∙ repulsed-Repulsed.coils;
    waiting = flagged-Tracks.pending_on ∙ repulsed-Repulsed.waiting;
    fault = flagged-Tracks.i2c_fault ∙ repulsed-Repulsed.fault;
    pulses = λ j h.
        ap (λ m. test m j) flagged-Tracks.pulsing ∙ (repulsed-Repulsed.pulses j h ∙ ground arith);
    limits = adopt_config-limits;
  }

-- The coils of pairs that are on together, taken off.
pub record Parted {World : Type 0} (s s' : Ctrl World) (conflict : ℕ) : Type 0 where
  pub cfg : s'.cfg ≡ s.cfg
  pub coils : s'.mask ≡ clear s.mask conflict
  pub waiting : s'.pending_on ≡ clear s.pending_on conflict
  pub pulses : s'.pulsing ≡ clear s.pulsing conflict
  pub limits : LimitsTracked s s' 0

-- Nothing changed but, when the write failed, the fault flag.
pub record NotParted {World : Type 0} (s s' : Ctrl World) : Type 0 where
  pub cfg : s'.cfg ≡ s.cfg
  pub coils : s'.mask ≡ s.mask
  pub waiting : s'.pending_on ≡ s.pending_on
  pub pulses : s'.pulsing ≡ s.pulsing
  pub limits : s'.limited ≡ s.limited

module _ {World : Type 0} (hw : Hw World) (s : Ctrl World) where
  -- The relays of pairs that are on together.
  abbrev pub conflict : ℕ
  conflict = (clear_interlock_conflicts s.cfg s.mask).1

  pub part_conflicts-cases :
      (((conflict ≡ 0) ⊎ ((part_conflicts hw s).i2c_fault ≡ true))
        × NotParted s (part_conflicts hw s))
      ⊎ Parted s (part_conflicts hw s) conflict
  unfolding part_conflicts report_interlock_health
  part_conflicts-cases =
      let target = clear s.mask conflict in
      let kept = commit-Keeps hw s target in
      elim (Bool-cases (conflict == 0)) [
        | inl none ↦ inl (inl ((==_iff conflict 0).0 none), ground (arith, none))
        | inr pairs ↦ elim (Status-cases (commit hw s target).1) [
          | inl done ↦
              let r = (commit hw s target).0 in
              let s1 = record r {
                pulsing = clear r.pulsing conflict;
                pending_on = clear r.pending_on conflict;
              } in
              let t = track_max_on-Tracks hw s1 s.mask 0 in
              inr (
                rw pairs (
                  rw done (record {
                    cfg = t.cfg ∙ kept.cfg;
                    coils = t.mask ∙ commit-ok hw s target done;
                    waiting = t.pending_on ∙ ap (λ m. clear m conflict) kept.pending_on;
                    pulses = t.pulsing ∙ ap (λ m. clear m conflict) kept.pulsing;
                    limits = tracked hw s s1 0 kept.limited;
                  })))
          | inr (e, bad) ↦ inl (
            inr (ground (arith, pairs, commit-fail hw s target e)),
            ground (arith, pairs, kept, commit-fail hw s target e),
          )
        ]
      ]
