-- ===== src/Relay/Fire.antt =====
-- What the parts of relay_ctrl_tick() leave in the masks, bit by bit: the timers that end, the loops
-- over the waiting relays, and the save.
use signalk_esp_os_8relay.Base.{
  ℕ, zero, suc, ◌<◌, ◌==◌, ltb, not, ◌&&◌, ◌||◌, ◌≡◌, ◌⊎◌, inl, inr, refl, ap, same_at, Bool-cases,
  arith,
}
use signalk_esp_os_8relay.Base.Bits.{test, clear, test-zero}
use signalk_esp_os_8relay.Base.Masks.{test-set_bit, test-clear-bit}
use signalk_esp_os_8relay.Relay.State.{Hw, Ctrl, is_momentary}
use signalk_esp_os_8relay.Relay.Commit.{commit}
use signalk_esp_os_8relay.Relay.Tick.{
  ended, expired, dead_time_over, may_fire, fire_loop, fire_channel, fired_loop, end_pulses,
  end_limits, save_when_due,
}
use signalk_esp_os_8relay.Relay.Frame.{commit-Keeps, commit-ok, commit-fail, Status-cases}
use signalk_esp_os_8relay.Relay.Effects.{Masks}

module _ {World : Type 0} (now : ℕ) (s : Ctrl World) where
  -- The relays that go on: they wait, their dead time is over, and the partner's coil is off.
  pub fire_loop-fired :
      (n j : ℕ)
      → test (fire_loop now s n).1 j ≡ (ltb j n && (dead_time_over now s j && may_fire s j))
  unfolding fire_loop
  fire_loop-fired zero j = ground (arith, test-zero j)
  fire_loop-fired (suc n) j = ground (
    arith,
    fire_loop-fired n j,
    test-set_bit (fire_loop now s n).1 n j,
    same_at (dead_time_over now s) n j,
    same_at (may_fire s) n j,
  )

  -- A wait is dropped only where its time is over and the partner's coil is on.
  pub fire_loop-pending :
      (n j : ℕ)
      → j < 8
      → test (fire_loop now s n).0 j
        ≡ (test s.pending_on j && not (ltb j n && (dead_time_over now s j && not (may_fire s j))))
  unfolding fire_loop
  fire_loop-pending zero j h = ground arith
  fire_loop-pending (suc n) j h = ground (
    arith,
    fire_loop-pending n j h,
    test-clear-bit (fire_loop now s n).0 n j h,
    same_at (dead_time_over now s) n j,
    same_at (may_fire s) n j,
  )

-- What the loop over the fired relays leaves.
pub record Fires {World : Type 0} (fired n : ℕ) (s s' : Ctrl World) : Type 0 where
  pub cfg : s'.cfg ≡ s.cfg
  pub coils : s'.mask ≡ s.mask
  pub limits : s'.limited ≡ s.limited
  pub waiting :
      (j : ℕ)
      → j < 8
      → test s'.pending_on j ≡ (test s.pending_on j && not (ltb j n && test fired j))
  pub pulses :
      (j : ℕ)
      → test s'.pulsing j
        ≡ (test s.pulsing j || (ltb j n && (test fired j && is_momentary s.cfg j)))

module _ {World : Type 0} (now fired : ℕ) where
  Fires-suc :
      (n : ℕ) (s s' : Ctrl World)
      → Fires fired n s s'
      → Fires fired (suc n) s (fire_channel now fired n s')
  unfolding fire_channel
  Fires-suc n s s' f = record {
    cfg = ground (arith, f.cfg);
    coils = ground (arith, f.coils);
    limits = ground (arith, f.limits);
    waiting = λ j h.
        ground (arith, f.waiting j h, test-clear-bit s'.pending_on n j h, same_at (test fired) n j);
    pulses = λ j. ground (
      arith,
      f.pulses j,
      ap (λ c. is_momentary c n) f.cfg,
      test-set_bit s'.pulsing n j,
      same_at (test fired) n j,
      same_at (is_momentary s.cfg) n j,
    );
  }

  pub fired_loop-Fires : (n : ℕ) (s : Ctrl World) → Fires fired n s (fired_loop now fired n s)
  unfolding fired_loop
  fired_loop-Fires zero s = record {
    cfg = refl;
    coils = refl;
    limits = refl;
    waiting = λ j h. ground arith;
    pulses = λ j. ground arith;
  }
  fired_loop-Fires (suc n) s = Fires-suc n s (fired_loop now fired n s) (fired_loop-Fires n s)

module _ {World : Type 0} (hw : Hw World) (now : ℕ) (s : Ctrl World) where
  -- Ending pulses, and ending maximum on-times: nothing, or the coils whose time is over.
  pub end_pulses-Masks :
      Masks s (end_pulses hw now s) s.mask s.pending_on s.pulsing
      ⊎ Masks s
          (end_pulses hw now s)
          (clear s.mask (ended now s))
          s.pending_on
          (clear s.pulsing (ended now s))
  unfolding end_pulses
  end_pulses-Masks = elim (Bool-cases (ended now s == 0)) [
    | inl none ↦ inl (ground (arith, none))
    | inr some_over ↦ elim (Status-cases (commit hw s (clear s.mask (ended now s))).1) [
      | inl done ↦ inr (
          ground (
            arith,
            commit-Keeps hw s (clear s.mask (ended now s)),
            commit-ok hw s (clear s.mask (ended now s)),
          ))
      | inr (e, bad) ↦ inl (
          ground (
            arith,
            commit-Keeps hw s (clear s.mask (ended now s)),
            commit-fail hw s (clear s.mask (ended now s)) e,
          ))
    ]
  ]

  pub end_limits-Masks :
      Masks s (end_limits hw now s) s.mask s.pending_on s.pulsing
      ⊎ Masks s (end_limits hw now s) (clear s.mask (expired now s)) s.pending_on s.pulsing
  unfolding end_limits
  end_limits-Masks = elim (Bool-cases (expired now s == 0)) [
    | inl none ↦ inl (ground (arith, none))
    | inr some_over ↦ elim (Status-cases (commit hw s (clear s.mask (expired now s))).1) [
      | inl done ↦ inr (
          ground (
            arith,
            commit-Keeps hw s (clear s.mask (expired now s)),
            commit-ok hw s (clear s.mask (expired now s)),
          ))
      | inr (e, bad) ↦ inl (
          ground (
            arith,
            commit-Keeps hw s (clear s.mask (expired now s)),
            commit-fail hw s (clear s.mask (expired now s)) e,
          ))
    ]
  ]

module _ {World : Type 0} (hw : Hw World) (now : ℕ) (s : Ctrl World) where
  -- Saving changes no mask.
  pub save_when_due-Masks : Masks s (save_when_due hw now s) s.mask s.pending_on s.pulsing
  unfolding save_when_due
  save_when_due-Masks = ground arith
