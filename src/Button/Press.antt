-- ===== src/Button/Press.antt =====
-- Whole presses of the button, from idle to idle, as sequences of polls.
use signalk_esp_os_8relay.Base.{
  ltb, if◌then◌else◌, arith, ℕ, Bool, true, false, List, [], ◌∷◌, ◌++◌, map, ◌≡◌, refl, ap, ◌∙◌,
}
use signalk_esp_os_8relay.Base.Words.{sub32}
use package.signalk_esp_os_8relay.Button.{
  Button, Action, no_action, open_portal, factory_reset, Feedback, no_feedback, show_portal,
  show_reset, feedback_after, action_after, init, update,
}

-- The polls in order, each with its level and its time; what the last one leaves, and what each
-- returns.
abbrev pub run : Button → List (Bool × ℕ) → Button × List (Action × Feedback)
run st [] = (st, [])
run st ((level, now_ms) ∷ later) =
    let (st1, action, feedback) = update st level now_ms in
    let (st2, outputs) = run st1 later in (st2, (action, feedback) ∷ outputs)

-- The button settled: not pressed, or pressed since `start`.
abbrev pub at_rest : ℕ → Button
at_rest start = record {
  ignoring = false;
  raw = false;
  same_count = 3;
  debounced = false;
  was_pressed = false;
  press_start_ms = start;
}

abbrev held_since : ℕ → Button
held_since start = record {
  ignoring = false;
  raw = true;
  same_count = 3;
  debounced = true;
  was_pressed = true;
  press_start_ms = start;
}

abbrev pub quiet : Action × Feedback
quiet = (no_action, no_feedback)

-- What a press of a length does: nothing below five seconds, the portal from then on, and the reset
-- from fifteen seconds on.
unfoldable pub outcome : ℕ → Action
outcome held_ms =
    if ltb held_ms 5000 then no_action else if ltb held_ms 15000 then open_portal else factory_reset

-- The sign of an action that is to come.
unfoldable pub sign_of : Action → Feedback
sign_of no_action = no_feedback
sign_of open_portal = show_portal
sign_of factory_reset = show_reset

action_after-outcome : (held_ms : ℕ) → action_after held_ms ≡ outcome held_ms
unfolding action_after outcome
action_after-outcome held_ms = ground arith

feedback_after-outcome : (held_ms : ℕ) → feedback_after held_ms ≡ sign_of (outcome held_ms)
unfolding feedback_after outcome sign_of
feedback_after-outcome held_ms = ground arith

signs : feedback_after ≡ (λ held_ms. sign_of (outcome held_ms))
signs = λ i held_ms. feedback_after-outcome held_ms i

outcomes : action_after ≡ outcome
outcomes = λ i held_ms. action_after-outcome held_ms i

-- A poll at `now_ms` of a button that is held since `start`: the sign for how long it has been held.
abbrev holding : (ℕ → Feedback) → ℕ → ℕ → Action × Feedback
holding sign start now_ms = (no_action, sign (sub32 now_ms start))

-- The sign of what letting go then would do.
abbrev pub showing : ℕ → ℕ → Action × Feedback
showing = holding (λ held_ms. sign_of (outcome held_ms))

abbrev pub pressed_at : ℕ → Bool × ℕ
pressed_at now_ms = (true, now_ms)

-- Three polls without the button: the third is the release.
abbrev pub released : ℕ → ℕ → ℕ → List (Bool × ℕ)
released r1 r2 r3 = (false, r1) ∷ (false, r2) ∷ (false, r3) ∷ []

abbrev releasing : (ℕ → Feedback) → (ℕ → Action) → ℕ → ℕ → ℕ → ℕ → List (Action × Feedback)
releasing sign act start r1 r2 r3 =
    holding sign start r1 ∷ holding sign start r2 ∷ (act (sub32 r3 start), no_feedback) ∷ []

abbrev pub letting_go : ℕ → ℕ → ℕ → ℕ → List (Action × Feedback)
letting_go = releasing (λ held_ms. sign_of (outcome held_ms)) outcome

run-held :
    (start : ℕ) (times : List ℕ) (later : List (Bool × ℕ))
    → run (held_since start) (map pressed_at times ++ later) ≡ (
      (run (held_since start) later).0,
      map (holding feedback_after start) times ++ (run (held_since start) later).1,
    )
unfolding update
run-held start [] later = refl
run-held start (t ∷ times) later =
    ap (λ r. (r.0, holding feedback_after start t ∷ r.1)) (run-held start times later)

-- Three polls and more without the button, after a press since `start`.
run-let_go :
    (start r1 r2 r3 : ℕ)
    → run (held_since start) (released r1 r2 r3)
      ≡ (at_rest start, releasing feedback_after action_after start r1 r2 r3)
unfolding update
run-let_go start r1 r2 r3 = refl

-- From rest, however long the button is held after three polls that see it pressed and before three
-- that do not, the polls return no action but the last, whose action is that of the time since the
-- third poll: none below five seconds, the portal from then on, and the factory reset from fifteen
-- seconds on. Every poll in between, from the third to the last but one, shows the sign of the
-- action that letting go then would have, and the button is at rest again. The times are any, the
-- clock may wrap.
pub press_and_release :
    (before t1 t2 t3 : ℕ) (held : List ℕ) (r1 r2 r3 : ℕ)
    → run
        (at_rest before)
        (pressed_at t1 ∷ pressed_at t2 ∷ pressed_at t3 ∷ (map pressed_at held ++ released r1 r2 r3))
      ≡ (
        at_rest t3,
        quiet ∷ quiet ∷ showing t3 t3 ∷ (map (showing t3) held ++ letting_go t3 r1 r2 r3),
      )
unfolding update
press_and_release before t1 t2 t3 held r1 r2 r3 =
    ap (λ r. (r.0, quiet ∷ quiet ∷ holding feedback_after t3 t3 ∷ r.1))
      (run-held t3 held (released r1 r2 r3)
        ∙ ap (λ r. (r.0, map (holding feedback_after t3) held ++ r.1)) (run-let_go t3 r1 r2 r3))
    ∙ λ i. (
      at_rest t3,
      quiet
          ∷ quiet
          ∷ holding (signs i) t3 t3
          ∷ (map (holding (signs i) t3) held ++ releasing (signs i) (outcomes i) t3 r1 r2 r3),
    )

-- A button that was down at start-up and still is.
run-ignored :
    (times : List ℕ) (later : List (Bool × ℕ))
    → run (init true) (map pressed_at times ++ later)
      ≡ ((run (init true) later).0, map (λ _. quiet) times ++ (run (init true) later).1)
unfolding update init
run-ignored [] later = refl
run-ignored (t ∷ times) later = ap (λ r. (r.0, quiet ∷ r.1)) (run-ignored times later)

-- A button that is down at start-up does nothing and shows nothing, however long it is held, until
-- three polls have seen it released; then it is at rest.
pub held_at_boot :
    (held : List ℕ) (r1 r2 r3 : ℕ)
    → run (init true) (map pressed_at held ++ released r1 r2 r3)
      ≡ (at_rest 0, map (λ _. quiet) held ++ (quiet ∷ quiet ∷ quiet ∷ []))
unfolding update init
held_at_boot held r1 r2 r3 = run-ignored held (released r1 r2 r3)
