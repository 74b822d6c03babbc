-- ===== src/Relay/Frame.antt =====
-- What commit_locked() and track_max_on_locked() change, and what they leave alone.
use signalk_esp_os_8relay.Base.{
  ℕ, zero, suc, ◌<◌, ◌==◌, ltb, if◌then◌else◌, Bool, true, not, ◌&&◌, ◌||◌, ◌≡◌, ◌⊎◌, inl, inr,
  refl, ap, same_at, ◌∙◌, Bool-cases, arith,
}
use signalk_esp_os_8relay.Base.Bits.{test}
use signalk_esp_os_8relay.Base.Masks.{test-set_bit, test-clear-bit}
use signalk_esp_os_8relay.Board.{channels, Status, ok, fail, Fault}
use signalk_esp_os_8relay.Relay.State.{Hw, Ctrl, max_on_ms}
use signalk_esp_os_8relay.Relay.Commit.{commit, track_channel, track_loop, track_max_on}

-- Everything but the coils, the stored flag, the outside and the reports is as before.
pub record Keeps {World : Type 0} (s s' : Ctrl World) : Type 0 where
  pub cfg : s'.cfg ≡ s.cfg
  pub pulsing : s'.pulsing ≡ s.pulsing
  pub pulse_end : s'.pulse_end ≡ s.pulse_end
  pub limited : s'.limited ≡ s.limited
  pub max_on_end : s'.max_on_end ≡ s.max_on_end
  pub pending_on : s'.pending_on ≡ s.pending_on
  pub pending_on_end : s'.pending_on_end ≡ s.pending_on_end
  pub pending_on_src : s'.pending_on_src ≡ s.pending_on_src
  pub last_save_ms : s'.last_save_ms ≡ s.last_save_ms
  pub listeners : s'.listeners ≡ s.listeners

module _ {World : Type 0} (hw : Hw World) where
  pub commit-Keeps : (s : Ctrl World) (t : ℕ) → Keeps s (commit hw s t).0
  unfolding commit
  commit-Keeps s t = ground arith

  pub commit-ok : (s : Ctrl World) (t : ℕ) → (commit hw s t).1 ≡ ok → (commit hw s t).0.mask ≡ t
  unfolding commit
  commit-ok s t h = ground arith

  pub commit-fail :
      (s : Ctrl World) (t : ℕ) (e : Fault)
      → (commit hw s t).1 ≡ fail e
      → ((commit hw s t).0.mask ≡ s.mask) × ((commit hw s t).0.i2c_fault ≡ true)
  unfolding commit
  commit-fail s t e h = ground arith

pub Status-cases : (r : Status) → (r ≡ ok) ⊎ ((e : Fault) × (r ≡ fail e))
Status-cases ok = inl refl
Status-cases (fail e) = inr (e, refl)

-- track_max_on_locked() touches the timers of the maximum on-time only.
pub record Tracks {World : Type 0} (s s' : Ctrl World) : Type 0 where
  pub world : s'.world ≡ s.world
  pub cfg : s'.cfg ≡ s.cfg
  pub mask : s'.mask ≡ s.mask
  pub pulsing : s'.pulsing ≡ s.pulsing
  pub pulse_end : s'.pulse_end ≡ s.pulse_end
  pub pending_on : s'.pending_on ≡ s.pending_on
  pub pending_on_end : s'.pending_on_end ≡ s.pending_on_end
  pub pending_on_src : s'.pending_on_src ≡ s.pending_on_src
  pub save_pending : s'.save_pending ≡ s.save_pending
  pub last_save_ms : s'.last_save_ms ≡ s.last_save_ms
  pub i2c_fault : s'.i2c_fault ≡ s.i2c_fault
  pub listeners : s'.listeners ≡ s.listeners
  pub reports : s'.reports ≡ s.reports

-- The bit of `limited` that is left for a channel.
abbrev pub limit_runs : Bool → Bool → Bool → Bool → Bool → Bool
limit_runs on none before restart old = on && (not none && (not before || restart || old))

module _ {World : Type 0} where
  track_channel-Tracks :
      (now before restart i : ℕ) (s : Ctrl World) → Tracks s (track_channel now before restart i s)
  unfolding track_channel
  track_channel-Tracks now before restart i s = ground arith

  track_loop-Tracks :
      (now before restart n : ℕ) (s : Ctrl World) → Tracks s (track_loop now before restart n s)
  unfolding track_loop
  track_loop-Tracks now before restart zero s = ground arith
  track_loop-Tracks now before restart (suc n) s = ground (
    arith,
    track_loop-Tracks now before restart n s,
    track_channel-Tracks now before restart n (track_loop now before restart n s),
  )

  track_channel-limited :
      (now before restart i j : ℕ) (s : Ctrl World)
      → j < 8
      → test (track_channel now before restart i s).limited j ≡ (
          if i == j
          then limit_runs
              (test s.mask j)
              (max_on_ms s.cfg j == 0)
              (test before j)
              (test restart j)
              (test s.limited j)
          else test s.limited j)
  unfolding track_channel
  track_channel-limited now before restart i j s h = elim (Bool-cases (i == j)) [
    | inl e ↦ ground (
      arith,
      test-clear-bit s.limited i j h,
      test-set_bit s.limited i j,
      same_at (test s.mask) i j,
      same_at (test before) i j,
      same_at (test restart) i j,
      same_at (λ k. max_on_ms s.cfg k == 0) i j,
    )
    | inr e ↦ ground (arith, test-clear-bit s.limited i j h, test-set_bit s.limited i j)
  ]

  track_loop-limited :
      (now before restart n j : ℕ) (s : Ctrl World)
      → j < 8
      → test (track_loop now before restart n s).limited j ≡ (
          if ltb j n
          then limit_runs
              (test s.mask j)
              (max_on_ms s.cfg j == 0)
              (test before j)
              (test restart j)
              (test s.limited j)
          else test s.limited j)
  unfolding track_loop
  track_loop-limited now before restart zero j s h = ground arith
  track_loop-limited now before restart (suc n) j s h =
      let s' = track_loop now before restart n s in
      ground (
        arith,
        track_loop-limited now before restart n j s h,
        track_channel-limited now before restart n j s' h,
        ap (λ m. test m j) (track_loop-Tracks now before restart n s).mask,
        ap (λ c. max_on_ms c j == 0) (track_loop-Tracks now before restart n s).cfg,
      )

module _ {World : Type 0} (hw : Hw World) where
  pub track_max_on-Tracks :
      (s : Ctrl World) (before restart : ℕ) → Tracks s (track_max_on hw s before restart)
  unfolding track_max_on
  track_max_on-Tracks s before restart =
      track_loop-Tracks (hw.now_ms s.world) before restart channels s

  pub track_max_on-limited :
      (s : Ctrl World) (before restart j : ℕ)
      → j < 8
      → test (track_max_on hw s before restart).limited j
        ≡ limit_runs
            (test s.mask j)
            (max_on_ms s.cfg j == 0)
            (test before j)
            (test restart j)
            (test s.limited j)
  unfolding track_max_on
  track_max_on-limited s before restart j h =
      track_loop-limited (hw.now_ms s.world) before restart channels j s h ∙ ground arith
