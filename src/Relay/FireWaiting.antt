-- ===== src/Relay/FireWaiting.antt =====
-- What the third part of relay_ctrl_tick() leaves: the relays whose dead time is over go on.
use signalk_esp_os_8relay.Base.{
  ℕ, ◌<◌, ◌==◌, Bool, true, not, ◌&&◌, ◌||◌, ◌≡◌, ◌⊎◌, inl, inr, refl, ap, ◌∙◌, ==_iff, Bool-cases,
  bit_or, arith,
}
use signalk_esp_os_8relay.Base.Bits.{test, test-bit_or}
use signalk_esp_os_8relay.Relay.State.{Hw, Ctrl, is_momentary, max_on_ms}
use signalk_esp_os_8relay.Relay.Commit.{commit, track_max_on}
use signalk_esp_os_8relay.Relay.Tick.{dead_time_over, may_fire, fire_loop, fired_loop, fire_pending}
use signalk_esp_os_8relay.Relay.Frame.{
  Keeps, Tracks, limit_runs, track_max_on-limited, commit-Keeps, commit-ok, commit-fail,
  track_max_on-Tracks, Status-cases,
}
use signalk_esp_os_8relay.Relay.Fire.{fire_loop-fired, fire_loop-pending, Fires, fired_loop-Fires}

-- The relay goes on in this tick, if the expander takes the write.
abbrev pub due : {World : Type 0} → ℕ → Ctrl World → ℕ → Bool
due now s j = dead_time_over now s j && may_fire s j

-- The third part of a tick without a change of the coils: waits against a partner that is on are
-- dropped.
pub record NotFired {World : Type 0} (now : ℕ) (s s' : Ctrl World) : Type 0 where
  pub cfg : s'.cfg ≡ s.cfg
  pub coils : s'.mask ≡ s.mask
  pub pulses : s'.pulsing ≡ s.pulsing
  pub limits : s'.limited ≡ s.limited
  pub waiting :
      (j : ℕ)
      → j < 8
      → test s'.pending_on j
        ≡ (test s.pending_on j && not (dead_time_over now s j && not (may_fire s j)))

-- The third part with one: every relay that is due is on and waits no more.
pub record Fired {World : Type 0} (now : ℕ) (s s' : Ctrl World) : Type 0 where
  pub cfg : s'.cfg ≡ s.cfg
  pub coils : (j : ℕ) → j < 8 → test s'.mask j ≡ (test s.mask j || due now s j)
  pub pulses :
      (j : ℕ)
      → j < 8
      → test s'.pulsing j ≡ (test s.pulsing j || (due now s j && is_momentary s.cfg j))
  pub limits :
      (j : ℕ)
      → j < 8
      → test s'.limited j
        ≡ limit_runs
            (test s'.mask j)
            (max_on_ms s'.cfg j == 0)
            (test s.mask j)
            (due now s j)
            (test s.limited j)
  pub waiting :
      (j : ℕ) → j < 8 → test s'.pending_on j ≡ (test s.pending_on j && not (dead_time_over now s j))

Keeps-refl : {World : Type 0} (s : Ctrl World) → Keeps s s
Keeps-refl s = ground arith

module _ {World : Type 0} (hw : Hw World) (now : ℕ) (s : Ctrl World) where
  -- The state before the write, and the write.
  abbrev dropped : Ctrl World
  dropped = record s { pending_on = (fire_loop now s 8).0 }

  abbrev wanted : ℕ
  wanted = bit_or s.mask (fire_loop now s 8).1

  dropped-NotFired : (s' : Ctrl World) → Keeps dropped s' → s'.mask ≡ s.mask → NotFired now s s'
  dropped-NotFired s' k m = record {
    cfg = k.cfg;
    coils = m;
    pulses = k.pulsing;
    limits = k.limited;
    waiting = λ j h. ground (arith, k.pending_on, fire_loop-pending now s 8 j h);
  }

  -- The state after the write, as the rest of fire_pending() makes it.
  abbrev after : Ctrl World → Ctrl World
  after s1 =
      track_max_on hw (fired_loop now (fire_loop now s 8).1 8 s1) s.mask (fire_loop now s 8).1

  module _ (s1 : Ctrl World) (k : Keeps dropped s1) (m : s1.mask ≡ wanted) where
    -- The steps of that: the loop over the fired relays, then the maximum on-times.
    abbrev looped : Ctrl World
    looped = fired_loop now (fire_loop now s 8).1 8 s1

    looped-Fires : Fires (fire_loop now s 8).1 8 s1 looped
    looped-Fires = fired_loop-Fires now (fire_loop now s 8).1 8 s1

    after-Tracks : Tracks looped (after s1)
    after-Tracks = track_max_on-Tracks hw looped s.mask (fire_loop now s 8).1

    after-cfg : (after s1).cfg ≡ s.cfg
    after-cfg = after-Tracks.cfg ∙ (looped-Fires.cfg ∙ k.cfg)

    after-coils : (j : ℕ) → j < 8 → test (after s1).mask j ≡ (test s.mask j || due now s j)
    after-coils j h =
        ap (λ t. test t j) (after-Tracks.mask ∙ (looped-Fires.coils ∙ m))
        ∙ (test-bit_or j s.mask (fire_loop now s 8).1 ∙ ground (arith, fire_loop-fired now s 8 j))

    after-pulses :
        (j : ℕ)
        → j < 8
        → test (after s1).pulsing j ≡ (test s.pulsing j || (due now s j && is_momentary s.cfg j))
    after-pulses j h =
        ap (λ t. test t j) after-Tracks.pulsing
        ∙ (looped-Fires.pulses j
            ∙ ground (
              arith,
              ap (λ t. test t j) k.pulsing,
              ap (λ c. is_momentary c j) k.cfg,
              fire_loop-fired now s 8 j,
            ))

    after-waiting :
        (j : ℕ)
        → j < 8
        → test (after s1).pending_on j ≡ (test s.pending_on j && not (dead_time_over now s j))
    after-waiting j h =
        ap (λ t. test t j) after-Tracks.pending_on
        ∙ (looped-Fires.waiting j h
            ∙ ground (
              arith,
              ap (λ t. test t j) k.pending_on,
              fire_loop-pending now s 8 j h,
              fire_loop-fired now s 8 j,
            ))

    after-limits :
        (j : ℕ)
        → j < 8
        → test (after s1).limited j
          ≡ limit_runs
              (test (after s1).mask j)
              (max_on_ms (after s1).cfg j == 0)
              (test s.mask j)
              (due now s j)
              (test s.limited j)
    after-limits j h =
        track_max_on-limited hw looped s.mask (fire_loop now s 8).1 j h
        ∙ ground (
          arith,
          ap (λ t. test t j) after-Tracks.mask,
          ap (λ c. max_on_ms c j == 0) after-Tracks.cfg,
          ap (λ t. test t j) (looped-Fires.limits ∙ k.limited),
          fire_loop-fired now s 8 j,
        )

    after-Fired : Fired now s (after s1)
    after-Fired = record {
      cfg = after-cfg;
      coils = after-coils;
      pulses = after-pulses;
      limits = after-limits;
      waiting = after-waiting;
    }

  pub fire_pending-cases :
      (NotFired now s (fire_pending hw now s).0
        × ((fire_pending hw now s).1 ≡ 0)
        × (((fire_loop now s 8).1 ≡ 0) ⊎ ((fire_pending hw now s).0.i2c_fault ≡ true)))
      ⊎ Fired now s (fire_pending hw now s).0
  unfolding fire_pending
  fire_pending-cases = elim (Bool-cases ((fire_loop now s 8).1 == 0)) [
    | inl none ↦
        rw none (
          inl (dropped-NotFired dropped (Keeps-refl dropped) refl, refl, inl ((==_iff _ 0).0 none)))
    | inr some_due ↦
        let kept = commit-Keeps hw dropped wanted in
        rw some_due (elim (Status-cases (commit hw dropped wanted).1) [
          | inl done ↦ rw done (
              inr
                (after-Fired (commit hw dropped wanted).0 kept (commit-ok hw dropped wanted done)))
          | inr (e, bad) ↦ rw bad (
              inl (
                dropped-NotFired (commit hw dropped wanted).0 kept
                    (commit-fail hw dropped wanted e bad).0,
                refl,
                inr (commit-fail hw dropped wanted e bad).1,
              ))
        ])
  ]
