-- ===== src/Schedule/Active.antt =====
-- The times of the sun are computed only when an entry needs them, and that changes nothing.
use signalk_esp_os_8relay.Base.{
  ℕ, zero, suc, ◌<◌, ◌≤◌, if◌then◌else◌, Bool, true, false, not, ◌==◌, ltb, List, [], ◌∷◌, ◌++◌,
  ◌≡◌, refl, ap, ◌∙◌, arith, inl, inr, Bool-cases, ltb→lt,
}
use signalk_esp_os_8relay.DeviceConfig.{Config, ScheduleCfg, ScheduleTime}
use package.signalk_esp_os_8relay.Schedule.{
  Sun, Local, Entry, Evaluator, Output, no_time_normal, is_by_clock, resolve_minute, clock_active,
  entry_active, entry_needs_sun, need_sun, no_sun, entry_step, sent, evaluate, without_time, tick,
}

resolve_minute-clock :
    (t : ScheduleTime) (local : Local) (a b : Sun)
    → is_by_clock t.kind ≡ true
    → resolve_minute t local a ≡ resolve_minute t local b
unfolding resolve_minute
resolve_minute-clock t local a b e = ground (arith, e)

module _ (sc : ScheduleCfg) (local : Local) (a b : Sun) (idle : entry_needs_sun sc ≡ false) where
  clock_active-same :
      is_by_clock sc.on.kind ≡ true
      → is_by_clock sc.off.kind ≡ true
      → clock_active sc local a ≡ clock_active sc local b
  unfolding clock_active
  clock_active-same e d =
      rw (resolve_minute-clock sc.on local a b e, resolve_minute-clock sc.off local a b d) refl

  entry_active-same : (sc.relay == 0) ≡ false → entry_active sc local a ≡ entry_active sc local b
  unfolding entry_active entry_needs_sun
  entry_active-same on = ground (arith, idle, on, clock_active-same)

  entry_step-same : (e : Entry) → entry_step sc local a e ≡ entry_step sc local b e
  unfolding entry_step
  entry_step-same e = elim (Bool-cases (sc.relay == 0)) [
    | inl off ↦ simp off refl
    | inr on ↦ simp (entry_active-same on) refl
  ]

need_sun-none :
    (cfg : Config) (n i : ℕ)
    → need_sun cfg n ≡ false
    → i < n
    → entry_needs_sun (cfg.schedules i) ≡ false
unfolding need_sun
need_sun-none cfg zero i e l = absurd (omega arith)
need_sun-none cfg (suc n) i e l = elim (Bool-cases (i == n)) [
  | inl same ↦
      let j : i ≡ n = ground (arith, same) in
      ap (λ k. entry_needs_sun (cfg.schedules k)) j ∙ ground (arith, e)
  | inr other ↦ need_sun-none cfg n i (ground (arith, e)) (ground (arith, other))
]

module _ (cfg : Config) (local : Local) (a b : Sun)
    (same : (i : ℕ)
      → i < 8
      → (e : Entry)
      → entry_step (cfg.schedules i) local a e ≡ entry_step (cfg.schedules i) local b e) where
  sent-same :
      (entries : ℕ → Entry) (n : ℕ)
      → n ≤ 8
      → sent cfg local a entries n ≡ sent cfg local b entries n
  unfolding sent
  sent-same entries zero l = refl
  sent-same entries (suc n) l =
      ap (λ r. r ++ (entry_step (cfg.schedules n) local a (entries n)).1)
        (sent-same entries n (omega arith))
      ∙ ap (λ (r : Entry × List Output). sent cfg local b entries n ++ r.1)
          (same n (omega arith) (entries n))

  entry_after-same :
      (s : Evaluator) (i : ℕ)
      → (evaluate cfg local a s).0.entries i ≡ (evaluate cfg local b s).0.entries i
  unfolding evaluate
  entry_after-same s i = elim (Bool-cases (ltb i 8)) [
    | inl e ↦ simp e (ap (λ (r : Entry × List Output). r.0) (same i (ltb→lt i 8 e) (s.entries i)))
    | inr e ↦ simp e refl
  ]

  evaluate-same : (s : Evaluator) → evaluate cfg local a s ≡ evaluate cfg local b s
  unfolding evaluate
  evaluate-same s = λ t.
      (record s { entries = λ i. entry_after-same s i t }, sent-same s.entries 8 (omega arith) t)

-- The tick with the times of the sun computed every time.
abbrev pub eager_tick : (Local → Sun) → Config → Bool → Local → Evaluator → Evaluator × List Output
eager_tick sun_times cfg time_valid local s =
    if not time_valid
    then without_time s
    else (let (s', out) =
          evaluate cfg local (sun_times local) (record s { was_time_valid = true }) in
        (s', (if s.was_time_valid then [] else no_time_normal ∷ []) ++ out))

-- Leaving out the times of the sun when no entry in use refers to them changes neither the state
-- nor what a tick sends.
pub tick-eager_tick :
    (sun_times : Local → Sun) (cfg : Config) (time_valid : Bool) (local : Local) (s : Evaluator)
    → tick sun_times cfg time_valid local s ≡ eager_tick sun_times cfg time_valid local s
unfolding tick
tick-eager_tick sun_times cfg false local s = refl
tick-eager_tick sun_times cfg true local s =
    ap
      (λ (r : Evaluator × List Output).
        (r.0, (if s.was_time_valid then [] else no_time_normal ∷ []) ++ r.1))
      (elim (Bool-cases (need_sun cfg 8)) [
        | inl e ↦ simp e refl
        | inr e ↦ simp e (
            evaluate-same cfg local no_sun (sun_times local)
              (λ i l.
                entry_step-same (cfg.schedules i) local no_sun (sun_times local)
                  (need_sun-none cfg 8 i e l))
              (record s { was_time_valid = true }))
      ])
