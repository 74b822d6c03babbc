-- ===== src/InputSense/Events.antt =====
-- Which relays the inputs switch, and when they must not.
use signalk_esp_os_8relay.Base.{
  ℕ, zero, suc, if◌then◌else◌, Bool, true, false, not, ◌&&◌, ◌||◌, ◌==◌, ltb, xor, bit_xor, List,
  [], ◌∷◌, ◌++◌, ◌+◌, ◌≡◌, refl, ap, ◌∙◌, arith, inl, inr, Bool-cases,
}
use signalk_esp_os_8relay.Base.Bits.{test}
use signalk_esp_os_8relay.Base.Masks.{mask_of}
use signalk_esp_os_8relay.Base.Words.{add32, sub32}
use signalk_esp_os_8relay.Board.{channels}
use signalk_esp_os_8relay.DeviceConfig.{Config, Link}
use package.signalk_esp_os_8relay.InputSense.{
  Inputs, startup_grace_ms, act_off, act_on, act_toggle, Event, report, override_, report_input,
  override_relay, each, apply_override, update_config,
}
use package.signalk_esp_os_8relay.InputSense.Poll.{sampled, settled, settled_value, start_up, poll}
use package.signalk_esp_os_8relay.InputSense.Settle.{poll-start_up}

-- A call that switches a relay; one that flips it.
abbrev pub switches : Event → Bool
switches (report l c o m) = false
switches (override_ r a) = true

abbrev pub flips : Event → Bool
flips (report l c o m) = false
flips (override_ r act_off) = false
flips (override_ r act_on) = false
flips (override_ r act_toggle) = true

abbrev pub some_of : (Event → Bool) → List Event → Bool
some_of p [] = false
some_of p (e ∷ es) = p e || some_of p es

module _ (p : Event → Bool) where
  some_of-append : (es fs : List Event) → some_of p (es ++ fs) ≡ (some_of p es || some_of p fs)
  some_of-append [] fs = refl
  some_of-append (e ∷ es) fs = ground (arith, some_of-append es fs)

  some_of-when :
      (b : Bool) (es : List Event) → some_of p es ≡ false → some_of p (if b then es else []) ≡ false
  some_of-when true es h = h
  some_of-when false es h = refl

  some_of-each :
      (f : ℕ → List Event)
      → ((i : ℕ) → some_of p (f i) ≡ false)
      → (n : ℕ) → some_of p (each f n) ≡ false
  unfolding each
  some_of-each f none zero = refl
  some_of-each f none (suc n) =
      some_of-append (each f n) (f n) ∙ ground (arith, some_of-each f none n, none n)

  some_of-reports :
      ((l c : ℕ) (o : Bool) (m : ℕ) → p (report l c o m) ≡ false)
      → (listeners : List ℕ) (i : ℕ) (on : Bool) (mask : ℕ)
      → some_of p (report_input listeners i on mask) ≡ false
  unfolding report_input
  some_of-reports silent [] i on mask = refl
  some_of-reports silent (l ∷ ls) i on mask =
      ground (arith, silent l (i + 1) on mask, some_of-reports silent ls i on mask)

linked-flips :
    (link : Link) (elsewhere on : Bool) (r : ℕ)
    → some_of flips (
        if elsewhere then [] else elim link [
          | Link.toggle ↦ if on && not true then override_ (r + 1) act_toggle ∷ [] else []
          | Link.follow ↦ override_ (r + 1) (if on then act_on else act_off) ∷ []
        ])
      ≡ false
linked-flips link true on r = refl
linked-flips Link.toggle false true r = refl
linked-flips Link.toggle false false r = refl
linked-flips Link.follow false true r = refl
linked-flips Link.follow false false r = refl

override_relay-flips :
    (cfg : Config) (i : ℕ) (on : Bool) (r : ℕ)
    → some_of flips (override_relay cfg i on true r) ≡ false
unfolding override_relay
override_relay-flips cfg i on r =
    linked-flips (cfg.relays r).link (not ((cfg.relays r).override_di == i + 1)) on r

apply_override-flips :
    (cfg : Config) (i : ℕ) (on : Bool) → some_of flips (apply_override cfg i on true) ≡ false
unfolding apply_override
apply_override-flips cfg i on =
    some_of-each flips (override_relay cfg i on true) (override_relay-flips cfg i on) 8

start_up-flips : (now : ℕ) (s : Inputs) → some_of flips (start_up now s).1 ≡ false
unfolding start_up
start_up-flips now s =
    let stable = settled_value now s in
    let reports : ℕ → List Event = λ i. report_input s.listeners i (test stable i) stable in
    let boots : ℕ → List Event =
      λ i. if test (settled now s) i then apply_override s.cfg i (test stable i) true else [] in
    let none : some_of flips (each reports 8 ++ each boots 8) ≡ false =
      some_of-append flips (each reports 8) (each boots 8)
      ∙ ground (
        arith,
        some_of-each flips reports
            (λ i. some_of-reports flips (λ _ _ _ _. refl) s.listeners i (test stable i) stable) 8,
        some_of-each flips boots
            (λ i.
              some_of-when flips (test (settled now s) i)
                (apply_override s.cfg i (test stable i) true)
                (apply_override-flips s.cfg i (test stable i)))
            8,
      ) in
    let waits : Bool =
      not (settled now s == 255)
      && ltb (sub32 now s.start_ms) (add32 s.cfg.debounce_ms startup_grace_ms) in
    elim (Bool-cases waits) [ inl e ↦ rw e refl | inr e ↦ rw e none ]

-- A poll while the inputs are not ready yet calls for no relay to be flipped.
pub poll_at_boot :
    (raw now : ℕ) (s : Inputs) → s.ready ≡ false → some_of flips (poll raw now s).1 ≡ false
poll_at_boot raw now s down =
    ap (λ r. some_of flips r.1) (poll-start_up raw now s down)
    ∙ start_up-flips now (sampled raw now s)

-- Taking over new settings switches no relay, whichever inputs they invert.
pub update_config-switches :
    (cfg : Config) (s : Inputs) → some_of switches (update_config cfg s).1 ≡ false
unfolding update_config
update_config-switches cfg s =
    let flipped = mask_of channels (λ i. xor (cfg.inputs i).invert (s.cfg.inputs i).invert) in
    let stable = bit_xor s.stable flipped in
    let reports : ℕ → List Event =
      λ i. if test flipped i then report_input s.listeners i (test stable i) stable else [] in
    let none : some_of switches (each reports 8) ≡ false =
      some_of-each switches reports
        (λ i.
          some_of-when switches (test flipped i) (report_input s.listeners i (test stable i) stable)
            (some_of-reports switches (λ _ _ _ _. refl) s.listeners i (test stable i) stable))
        8 in
    let silent : Bool = (flipped == 0) || not s.ready in
    elim (Bool-cases silent) [ inl e ↦ rw e refl | inr e ↦ rw e none ]
