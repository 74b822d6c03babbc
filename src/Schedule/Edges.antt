-- ===== src/Schedule/Edges.antt =====
-- When schedule_eval_tick() switches relays: at transitions, and at once after the time was unknown.
use signalk_esp_os_8relay.Base.{
  ℕ, zero, suc, ◌<◌, if◌then◌else◌, true, false, ◌==◌, List, [], ◌∷◌, ◌++◌, ◌≡◌, refl, ap, ◌∙◌,
  arith, lt→ltb,
}
use signalk_esp_os_8relay.DeviceConfig.{Config, ScheduleCfg}
use package.signalk_esp_os_8relay.Schedule.{
  Sun, Local, Entry, Evaluator, Output, no_time_normal, set_relay, entry_active, entry_step, sent,
  evaluate, without_time, tick,
}
use package.signalk_esp_os_8relay.Schedule.Active.{tick-eager_tick}

-- The command that an entry stands for at a time: none if it is not in use.
abbrev pub command : ScheduleCfg → Local → Sun → List Output
command sc local sun =
    if sc.relay == 0 then [] else set_relay sc.relay (entry_active sc local sun) ∷ []

abbrev pub commands : Config → Local → Sun → ℕ → List Output
commands cfg local sun zero = []
commands cfg local sun (suc i) = commands cfg local sun i ++ command (cfg.schedules i) local sun

entry_step-first :
    (sc : ScheduleCfg) (local : Local) (sun : Sun) (e : Entry)
    → e.valid ≡ false
    → (entry_step sc local sun e).1 ≡ command sc local sun
unfolding entry_step
entry_step-first sc local sun e new = ground (arith, new)

entry_step-again :
    (sc : ScheduleCfg) (local local' : Local) (sun sun' : Sun) (e : Entry)
    → ((sc.relay == 0) ≡ false → entry_active sc local' sun' ≡ entry_active sc local sun)
    → (entry_step sc local' sun' (entry_step sc local sun e).0).1 ≡ []
unfolding entry_step
entry_step-again sc local local' sun sun' e same = ground (arith, same)

sent-first :
    (cfg : Config) (local : Local) (sun : Sun) (entries : ℕ → Entry) (n : ℕ)
    → ((i : ℕ) → i < n → (entries i).valid ≡ false)
    → sent cfg local sun entries n ≡ commands cfg local sun n
unfolding sent
sent-first cfg local sun entries zero new = refl
sent-first cfg local sun entries (suc n) new =
    ap (λ r. r ++ (entry_step (cfg.schedules n) local sun (entries n)).1)
      (sent-first cfg local sun entries n (λ i l. new i (omega arith)))
    ∙ ap (λ r. commands cfg local sun n ++ r)
        (entry_step-first (cfg.schedules n) local sun (entries n) (new n (omega arith)))

sent-none :
    (cfg : Config) (local : Local) (sun : Sun) (entries : ℕ → Entry) (n : ℕ)
    → ((i : ℕ) → i < n → (entry_step (cfg.schedules i) local sun (entries i)).1 ≡ [])
    → sent cfg local sun entries n ≡ []
unfolding sent
sent-none cfg local sun entries zero none_ = refl
sent-none cfg local sun entries (suc n) none_ =
    ap (λ r. r ++ (entry_step (cfg.schedules n) local sun (entries n)).1)
      (sent-none cfg local sun entries n (λ i l. none_ i (omega arith)))
    ∙ none_ n (omega arith)

module _ (cfg : Config) (s : Evaluator) where
  evaluate-entry :
      (local : Local) (sun : Sun) (i : ℕ)
      → i < 8
      → (evaluate cfg local sun s).0.entries i
        ≡ (entry_step (cfg.schedules i) local sun (s.entries i)).0
  unfolding evaluate
  evaluate-entry local sun i l =
      ap (λ b. if b then (entry_step (cfg.schedules i) local sun (s.entries i)).0 else s.entries i)
        (lt→ltb i 8 l)

  evaluate-sent :
      (local : Local) (sun : Sun) → (evaluate cfg local sun s).1 ≡ sent cfg local sun s.entries 8
  unfolding evaluate
  evaluate-sent local sun = refl

  evaluate-time :
      (local : Local) (sun : Sun) → (evaluate cfg local sun s).0.was_time_valid ≡ s.was_time_valid
  unfolding evaluate
  evaluate-time local sun = refl

module _ (s : Evaluator) where
  without_time-valid : (i : ℕ) → i < 8 → ((without_time s).0.entries i).valid ≡ false
  unfolding without_time
  without_time-valid i l =
      ap (λ b. (if b then record (s.entries i) { valid = false } else s.entries i).valid)
        (lt→ltb i 8 l)

  without_time-time : (without_time s).0.was_time_valid ≡ false
  unfolding without_time
  without_time-time = refl

module _ (sun_times : Local → Sun) (cfg : Config) (s : Evaluator) where
  tick-out :
      (local : Local)
      → (tick sun_times cfg true local s).1
        ≡ (if s.was_time_valid then [] else no_time_normal ∷ [])
          ++ sent cfg local (sun_times local) s.entries 8
  tick-out local =
      ap (λ (r : Evaluator × List Output). r.1) (tick-eager_tick sun_times cfg true local s)
      ∙ ap (λ r. (if s.was_time_valid then [] else no_time_normal ∷ []) ++ r)
          (evaluate-sent cfg (record s { was_time_valid = true }) local (sun_times local))

  tick-entry :
      (local : Local) (i : ℕ)
      → i < 8
      → (tick sun_times cfg true local s).0.entries i
        ≡ (entry_step (cfg.schedules i) local (sun_times local) (s.entries i)).0
  tick-entry local i l =
      ap (λ (r : Evaluator × List Output). r.0.entries i)
        (tick-eager_tick sun_times cfg true local s)
      ∙ evaluate-entry cfg (record s { was_time_valid = true }) local (sun_times local) i l

  tick-time : (local : Local) → (tick sun_times cfg true local s).0.was_time_valid ≡ true
  tick-time local =
      ap (λ (r : Evaluator × List Output). r.0.was_time_valid)
        (tick-eager_tick sun_times cfg true local s)
      ∙ evaluate-time cfg (record s { was_time_valid = true }) local (sun_times local)

module _ (sun_times : Local → Sun) (cfg : Config) (s : Evaluator) where
  -- After a tick with a valid time, a later tick under the same settings, at which every entry in
  -- use is active or not as before, sends nothing: a command given in between stands.
  pub tick-again :
      (local local' : Local)
      → ((i : ℕ)
          → i < 8
          → ((cfg.schedules i).relay == 0) ≡ false
          → entry_active (cfg.schedules i) local' (sun_times local')
            ≡ entry_active (cfg.schedules i) local (sun_times local))
      → (tick sun_times cfg true local' (tick sun_times cfg true local s).0).1 ≡ []
  tick-again local local' same =
      let s1 = (tick sun_times cfg true local s).0 in
      tick-out sun_times cfg s1 local'
      ∙ (ap
            (λ b.
              (if b then [] else no_time_normal ∷ [])
              ++ sent cfg local' (sun_times local') s1.entries 8)
            (tick-time sun_times cfg s local)
          ∙ sent-none cfg local' (sun_times local') s1.entries 8 (λ i l.
            ap (λ e. (entry_step (cfg.schedules i) local' (sun_times local') e).1)
              (tick-entry sun_times cfg s local i l)
            ∙ entry_step-again (cfg.schedules i) local local' (sun_times local) (sun_times local')
                (s.entries i) (same i l)))

  -- The first tick with a valid time after one without ends the warning and then brings the relay
  -- of every entry in use, in the order of the entries, to the state that the entry asks for.
  pub tick_after_gap :
      (local local' : Local)
      → (tick sun_times cfg true local' (tick sun_times cfg false local s).0).1
        ≡ no_time_normal ∷ commands cfg local' (sun_times local') 8
  unfolding tick
  tick_after_gap local local' =
      let s1 = (without_time s).0 in
      tick-out sun_times cfg s1 local'
      ∙ (ap
            (λ b.
              (if b then [] else no_time_normal ∷ [])
              ++ sent cfg local' (sun_times local') s1.entries 8)
            (without_time-time s)
          ∙ ap (λ r. no_time_normal ∷ r)
              (sent-first cfg local' (sun_times local') s1.entries 8 (without_time-valid s)))
