-- ===== src/InputSense/Start.antt =====
-- How the inputs become ready, and what is reported then.
use signalk_esp_os_8relay.Base.{
  ℕ, zero, suc, ◌+◌, ◌<◌, if◌then◌else◌, Bool, true, false, not, ◌&&◌, ◌||◌, ◌==◌, ltb, leb, List,
  [], ◌∷◌, ◌++◌, map, ◌≡◌, refl, sym, ap, ◌∙◌, arith, inl, inr, Bool-cases,
}
use mathlib.Core.List.{append-nil}
use signalk_esp_os_8relay.Base.Below.{all_below, below-all_below}
use signalk_esp_os_8relay.Base.Bits.{test, eq_of_test, test-ones}
use signalk_esp_os_8relay.Base.Masks.{mask_of, test-mask_of}
use signalk_esp_os_8relay.Base.Words.{add32, sub32}
use signalk_esp_os_8relay.DeviceConfig.{Config, Link}
use package.signalk_esp_os_8relay.InputSense.{
  Inputs, startup_grace_ms, read_input, act_off, act_on, act_toggle, Event, report, override_,
  report_input, override_relay, each, apply_override,
}
use package.signalk_esp_os_8relay.InputSense.Poll.{sampled, settled, settled_value, start_up, poll}
use package.signalk_esp_os_8relay.InputSense.Settle.{
  is_settled, test-settled, start_up-ready, start_up-stable, poll-start_up,
}

-- All eight inputs have settled, as of a poll.
abbrev pub all_settled : ℕ → ℕ → Inputs → Bool
all_settled raw now s = all_below 8 (is_settled raw now s)

-- The calls of the listeners among the events.
unfoldable pub reports_of : List Event → List Event
reports_of [] = []
reports_of (report l c on mask ∷ es) = report l c on mask ∷ reports_of es
reports_of (override_ r a ∷ es) = reports_of es

-- Every listener is told of input 1, of input 2, and so on to `n`, each with its bit of the mask.
unfoldable pub all_reports : List ℕ → ℕ → ℕ → List Event
all_reports listeners mask zero = []
all_reports listeners mask (suc i) =
    all_reports listeners mask i ++ map (λ l. report l (suc i) (test mask i) mask) listeners

all_below-all : (n : ℕ) (p : ℕ → Bool) → ((i : ℕ) → i < n → p i ≡ true) → all_below n p ≡ true
unfolding all_below
all_below-all zero p h = refl
all_below-all (suc n) p h =
    ground (arith, all_below-all n p (λ i l. h i (omega arith)), h n (omega arith))

full_mask : (p : ℕ → Bool) → (mask_of 8 p == 255) ≡ all_below 8 p
full_mask p = elim (Bool-cases (all_below 8 p)) [
  | inl all ↦
      let full : mask_of 8 p ≡ 255 =
        eq_of_test (mask_of 8 p) 255
          (λ j. ground (arith, test-mask_of 8 p j, test-ones j, below-all_below 8 p j all)) in
      ground (arith, full, all)
  | inr some ↦ elim (Bool-cases (mask_of 8 p == 255)) [
    | inl e ↦
        let full : mask_of 8 p ≡ 255 = ground (arith, e) in
        let each_one : (i : ℕ) → i < 8 → p i ≡ true =
          λ i l. ground (arith, test-mask_of 8 p i, ap (λ m. test m i) full, test-ones i, l) in
        ground (arith, some, all_below-all 8 p each_one)
    | inr e ↦ e ∙ sym some
  ]
]

reports_of-append : (es fs : List Event) → reports_of (es ++ fs) ≡ reports_of es ++ reports_of fs
unfolding reports_of
reports_of-append [] fs = refl
reports_of-append (report l c on mask ∷ es) fs =
    ap (λ (r : List Event). report l c on mask ∷ r) (reports_of-append es fs)
reports_of-append (override_ r a ∷ es) fs = reports_of-append es fs

none_each :
    (f : ℕ → List Event) → ((i : ℕ) → reports_of (f i) ≡ []) → (n : ℕ) → reports_of (each f n) ≡ []
unfolding each reports_of
none_each f none zero = refl
none_each f none (suc n) = reports_of-append (each f n) (f n) ∙ rw (none_each f none n, none n) refl

linked_none :
    (link : Link) (elsewhere on boot : Bool) (r : ℕ)
    → reports_of (
        if elsewhere then [] else elim link [
          | Link.toggle ↦ if on && not boot then override_ (r + 1) act_toggle ∷ [] else []
          | Link.follow ↦ override_ (r + 1) (if on then act_on else act_off) ∷ []
        ])
      ≡ []
unfolding reports_of
linked_none link true on boot r = refl
linked_none Link.toggle false true true r = refl
linked_none Link.toggle false true false r = refl
linked_none Link.toggle false false boot r = refl
linked_none Link.follow false on boot r = refl

apply_override-none :
    (cfg : Config) (i : ℕ) (on boot : Bool) → reports_of (apply_override cfg i on boot) ≡ []
unfolding apply_override override_relay
apply_override-none cfg i on boot =
    none_each (override_relay cfg i on boot)
      (λ r. linked_none (cfg.relays r).link (not ((cfg.relays r).override_di == i + 1)) on boot r) 8

when_none :
    (b : Bool) (es : List Event) → reports_of es ≡ [] → reports_of (if b then es else []) ≡ []
unfolding reports_of
when_none true es h = h
when_none false es h = refl

map_reports :
    (listeners : List ℕ) (c : ℕ) (on : Bool) (mask : ℕ)
    → reports_of (map (λ l. report l c on mask) listeners) ≡ map (λ l. report l c on mask) listeners
unfolding reports_of
map_reports [] c on mask = refl
map_reports (l ∷ ls) c on mask =
    ap (λ (r : List Event). report l c on mask ∷ r) (map_reports ls c on mask)

each-all_reports :
    (listeners : List ℕ) (mask n : ℕ)
    → reports_of (each (λ i. report_input listeners i (test mask i) mask) n)
      ≡ all_reports listeners mask n
unfolding each report_input all_reports reports_of
each-all_reports listeners mask zero = refl
each-all_reports listeners mask (suc n) =
    let told : n + 1 ≡ suc n = omega arith in
    reports_of-append (each (λ i. report_input listeners i (test mask i) mask) n)
      (map (λ l. report l (n + 1) (test mask n) mask) listeners)
    ∙ rw (each-all_reports listeners mask n, map_reports listeners (n + 1) (test mask n) mask)
        (ap
          (λ c. all_reports listeners mask n ++ map (λ l. report l c (test mask n) mask) listeners)
          told)

module _ (now : ℕ) (s : Inputs) (down : s.ready ≡ false) where
  abbrev boots : ℕ → List Event
  boots i =
      if test (settled now s) i
      then apply_override s.cfg i (test (settled_value now s) i) true
      else []

  all_events :
      reports_of (
        each
          (λ i. report_input s.listeners i (test (settled_value now s) i) (settled_value now s))
          8
        ++ each boots 8)
      ≡ all_reports s.listeners (settled_value now s) 8
  all_events =
      reports_of-append
        (each (λ i. report_input s.listeners i (test (settled_value now s) i) (settled_value now s))
          8)
        (each boots 8)
      ∙ rw
          (
            each-all_reports s.listeners (settled_value now s) 8,
            none_each boots
                (λ i.
                  when_none (test (settled now s) i)
                    (apply_override s.cfg i (test (settled_value now s) i) true)
                    (apply_override-none s.cfg i (test (settled_value now s) i) true))
                8,
          )
          (append-nil (all_reports s.listeners (settled_value now s) 8))

  -- Until the inputs are ready nothing changes and nothing is called.
  start_up-told :
      ((start_up now s).0.published
        ≡ (if (start_up now s).0.ready then (start_up now s).0.stable else s.published))
      × (reports_of (start_up now s).1 ≡ (
          if (start_up now s).0.ready
          then all_reports s.listeners (start_up now s).0.stable 8
          else []))
  unfolding start_up reports_of
  start_up-told =
      elim (Bool-cases (
        not (settled now s == 255)
        && ltb (sub32 now s.start_ms) (add32 s.cfg.debounce_ms startup_grace_ms))) [
          | inl e ↦ simp (e, down) (refl, refl)
          | inr e ↦ simp e (refl, all_events)
        ]

  start_up-waiting : (start_up now s).0.ready ≡ false → (start_up now s).0.stable ≡ s.stable
  unfolding start_up
  start_up-waiting waits = ground (arith, waits)

  start_up-level :
      (j : ℕ)
      → j < 8
      → test (start_up now s).0.stable j ≡ (
          if (start_up now s).0.ready
          then test (settled now s) j && s.candidate j
          else test s.stable j)
  start_up-level j h = elim (Bool-cases (start_up now s).0.ready) [
    | inl up ↦ rw up (start_up-stable now s j h up down)
    | inr waits ↦ rw waits (ap (λ m. test m j) (start_up-waiting waits))
  ]

module _ (raw now : ℕ) (s : Inputs) where
  all_settled_mask : (settled now (sampled raw now s) == 255) ≡ all_settled raw now s
  unfolding settled sampled
  all_settled_mask = full_mask (is_settled raw now s)

  first_ready :
      s.ready ≡ false
      → (start_up now (sampled raw now s)).0.ready ≡ (
          all_settled raw now s
          || leb (add32 s.cfg.debounce_ms startup_grace_ms) (sub32 now s.start_ms))
  unfolding sampled
  first_ready down = start_up-ready now (sampled raw now s) ∙ ground (arith, down, all_settled_mask)

  first_level :
      s.ready ≡ false
      → (i : ℕ) → i < 8
      → test (start_up now (sampled raw now s)).0.stable i ≡ (
          if (start_up now (sampled raw now s)).0.ready
          then is_settled raw now s i && read_input s.cfg raw i
          else test s.stable i)
  unfolding sampled
  first_level down i h =
      start_up-level now (sampled raw now s) down i h
      ∙ ap
          (λ b.
            if (start_up now (sampled raw now s)).0.ready
            then b && read_input s.cfg raw i
            else test s.stable i)
          (test-settled raw now s i h)

  first_told :
      s.ready ≡ false
      → ((start_up now (sampled raw now s)).0.published ≡ (
          if (start_up now (sampled raw now s)).0.ready
          then (start_up now (sampled raw now s)).0.stable
          else s.published))
        × (reports_of (start_up now (sampled raw now s)).1 ≡ (
            if (start_up now (sampled raw now s)).0.ready
            then all_reports s.listeners (start_up now (sampled raw now s)).0.stable 8
            else []))
  unfolding sampled
  first_told down = start_up-told now (sampled raw now s) down

  -- A poll while the inputs are not ready makes them ready exactly when all eight have settled or
  -- the debounce time and the grace of a second have gone by since the start. If it does, each
  -- input that has settled is taken over with its level and any other as off, that mask is
  -- published, and the listeners are told of all eight inputs in their order, each with its bit of
  -- the mask; if not, the levels and the published mask stay and no listener is told anything.
  pub poll-start :
      (i : ℕ)
      → i < 8
      → s.ready ≡ false
      → ((poll raw now s).0.ready ≡ (
          all_settled raw now s
          || leb (add32 s.cfg.debounce_ms startup_grace_ms) (sub32 now s.start_ms)))
        × (test (poll raw now s).0.stable i ≡ (
            if (poll raw now s).0.ready
            then is_settled raw now s i && read_input s.cfg raw i
            else test s.stable i))
        × ((poll raw now s).0.published
            ≡ (if (poll raw now s).0.ready then (poll raw now s).0.stable else s.published))
        × (reports_of (poll raw now s).1 ≡ (
            if (poll raw now s).0.ready
            then all_reports s.listeners (poll raw now s).0.stable 8
            else []))
  poll-start i h down =
      let (told, reports) = first_told down in
      rw (poll-start_up raw now s down) (first_ready down, first_level down i h, told, reports)
