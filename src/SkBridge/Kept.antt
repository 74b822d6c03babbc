-- ===== src/SkBridge/Kept.antt =====
-- What taking over new settings, and starting, leave alone: the values of the states, the bank ids
-- and the trees.
use signalk_esp_os_8relay.Base.{
  ℕ, zero, suc, ◌+◌, ◌≡◌, refl, ◌∙◌, arith, if◌then◌else◌, Bool, true, false, ◌&&◌, ◌==◌, List, [],
  ◌∷◌, ◌++◌, Option, Bool-cases, inl, inr,
}
use signalk_esp_os_8relay.Board.{channels, Status, ok}
use signalk_esp_os_8relay.DeviceConfig.{Config}
use signalk_esp_os_8relay.SkBridge.Text.{Tree, switches, controls, state}
use signalk_esp_os_8relay.SkBridge.Publish.{
  channel, Io, Call, put_register, tree_on, inputs_on, alarm_configured, each_channel, each_tree,
  publish_all, declare_names, publish_description, publish_state, publish_notification,
}
use signalk_esp_os_8relay.SkBridge.State.{
  Bridge, declare_tree, register_channels, register_all, is_ok, start, init, with_names, with_alarm,
  declare_renamed, renotify, update_channels, update_periods, update_config, input_changed,
}
use signalk_esp_os_8relay.SkBridge.View.{
  Value, view, view-append, is_state, state-declare_names, state-publish_notification,
  state-publish_description, state-publish_state, same_bool, same_tree, shown,
}

module _ (t : Tree) (input : Bool) (k : ℕ) where
  -- Calls that leave the state alone.
  abbrev pub Leaves : List Call → Type 0
  Leaves calls = (held : Option Value) → view (is_state t input k) calls held ≡ held

  Leaves-when : (b : Bool) (calls : List Call) → Leaves calls → Leaves (if b then calls else [])
  unfolding view
  Leaves-when true calls h held = h held
  Leaves-when false calls h held = refl

  Leaves-append : (xs ys : List Call) → Leaves xs → Leaves ys → Leaves (xs ++ ys)
  Leaves-append xs ys h g held =
      view-append (is_state t input k) xs ys held ∙ (g (view (is_state t input k) xs held) ∙ h held)

  Leaves-each_channel :
      (n : ℕ) (f : ℕ → List Call) → ((ch : ℕ) → Leaves (f ch)) → Leaves (each_channel n f)
  unfolding each_channel view
  Leaves-each_channel zero f h held = refl
  Leaves-each_channel (suc n) f h held =
      Leaves-append (each_channel n f) (f (suc n)) (Leaves-each_channel n f h) (h (suc n)) held

  Leaves-each_tree :
      (cfg : Config) (f : Tree → List Call) → ((u : Tree) → Leaves (f u)) → Leaves (each_tree cfg f)
  unfolding each_tree
  Leaves-each_tree cfg f h =
      Leaves-append (if tree_on cfg switches then f switches else [])
        (if tree_on cfg controls then f controls else [])
        (Leaves-when (tree_on cfg switches) (f switches) (h switches))
        (Leaves-when (tree_on cfg controls) (f controls) (h controls))

  -- The names of a channel, each on a condition.
  Leaves-names :
      (cfg : Config) (u : Tree) (ch : ℕ) (a b : Bool)
      → Leaves (
          (if a then declare_names cfg u false ch else [])
          ++ (if b then declare_names cfg u true ch else []))
  Leaves-names cfg u ch a b =
      Leaves-append (if a then declare_names cfg u false ch else [])
        (if b then declare_names cfg u true ch else [])
        (Leaves-when a (declare_names cfg u false ch)
          (state-declare_names t input k cfg u false ch))
        (Leaves-when b (declare_names cfg u true ch) (state-declare_names t input k cfg u true ch))

  pub Leaves-declare_tree : (cfg : Config) (u : Tree) → Leaves (declare_tree cfg u)
  unfolding declare_tree
  Leaves-declare_tree cfg u =
      Leaves-each_channel channels
        (λ ch.
          declare_names cfg u false ch
          ++ (if inputs_on cfg then declare_names cfg u true ch else []))
        (λ ch. Leaves-names cfg u ch true (inputs_on cfg))

  pub Leaves-declare_trees : (cfg : Config) → Leaves (each_tree cfg (declare_tree cfg))
  Leaves-declare_trees cfg = Leaves-each_tree cfg (declare_tree cfg) (Leaves-declare_tree cfg)

  Leaves-declare_renamed : (new cfg : Config) (i : ℕ) → Leaves (declare_renamed new cfg i)
  unfolding declare_renamed
  Leaves-declare_renamed new cfg i =
      let named = with_names new cfg i in
      Leaves-each_tree named _ (λ u. Leaves-names named u (i + 1) _ _)

  Leaves-renotify : (io : Io) (new : Config) (s : Bridge) (i : ℕ) → Leaves (renotify io new s i)
  unfolding renotify
  Leaves-renotify io new s i =
      let cfg = with_alarm new (with_names new s.cfg i) i in
      Leaves-when _ _ (
        Leaves-each_tree cfg _
          (λ u. state-publish_notification t input k cfg u (i + 1) (alarm_configured cfg (i + 1))))

  Leaves-update_channels :
      (io : Io) (new : Config) (n : ℕ) (s : Bridge) → Leaves (update_channels io new n s).1
  unfolding update_channels view
  Leaves-update_channels io new zero s held = refl
  Leaves-update_channels io new (suc i) s held =
      let (s1, calls) = update_channels io new i s in
      Leaves-append calls (declare_renamed new s1.cfg i ++ renotify io new s1 i)
        (Leaves-update_channels io new i s)
        (Leaves-append (declare_renamed new s1.cfg i) (renotify io new s1 i)
          (Leaves-declare_renamed new s1.cfg i) (Leaves-renotify io new s1 i))
        held

  Leaves-update_periods : (new : Config) (s : Bridge) → Leaves (update_periods new s).1
  unfolding update_periods view
  Leaves-update_periods new s held =
      elim (Bool-cases (s.cfg.sk_republish_s == new.sk_republish_s)) [
        | inl e ↦ simp e refl
        | inr e ↦ simp e (Leaves-when s.started _ (Leaves-declare_trees _) held)
      ]

  pub Leaves-update_config :
      (io : Io) (new : Config) (s : Bridge) → Leaves (update_config io new s).1
  unfolding update_config view
  Leaves-update_config io new s held = elim (Bool-cases s.ready) [
    | inl e ↦
        let (s1, calls) = update_channels io new channels s in
        simp e (
          Leaves-append calls (update_periods new s1).1 (Leaves-update_channels io new channels s)
            (Leaves-update_periods new s1) held)
    | inr e ↦ simp e refl
  ]

  Leaves-register_channels :
      (answer : Tree → ℕ → Status) (u : Tree) (n : ℕ) (before : Status × List Call)
      → Leaves before.1
      → Leaves (register_channels answer u n before).1
  unfolding register_channels view
  Leaves-register_channels answer u zero before h held = h held
  Leaves-register_channels answer u (suc n) before h held =
      let (err, calls) = register_channels answer u n before in
      elim (Bool-cases (is_ok err)) [
        | inl e ↦ simp e (
            Leaves-append calls (put_register (channel u false (suc n) state) (suc n) ∷ [])
              (Leaves-register_channels answer u n before h) (λ v. refl) held)
        | inr e ↦ simp e (Leaves-register_channels answer u n before h held)
      ]

  Leaves-register_all :
      (answer : Tree → ℕ → Status) (cfg : Config) → Leaves (register_all answer cfg).1
  unfolding register_all view
  Leaves-register_all answer cfg held =
      let one = λ (u : Tree) (before : Status × List Call) (h : Leaves before.1).
        Leaves-register_channels answer u channels before h in
      elim (Bool-cases (tree_on cfg switches)) [
        | inl e ↦ elim (Bool-cases (tree_on cfg controls)) [
          | inl g ↦ simp (e, g) (one controls _ (one switches (ok, []) (λ v. refl)) held)
          | inr g ↦ simp (e, g) (one switches (ok, []) (λ v. refl) held)
        ]
        | inr e ↦ elim (Bool-cases (tree_on cfg controls)) [
          | inl g ↦ simp (e, g) (one controls (ok, []) (λ v. refl) held)
          | inr g ↦ simp (e, g) refl
        ]
      ]

  -- Starting publishes the states once, with everything else.
  pub view-start :
      (created : Bool) (answer : Tree → ℕ → Status) (io : Io) (cfg : Config) (s : Bridge)
      → (init created s).1 ≡ ok
      → (held : Option Value)
      → view (is_state t input k) (start created answer io cfg s).1 held
        ≡ view (is_state t input k) (publish_all cfg io) held
  unfolding start
  view-start created answer io cfg s good held =
      simp (good, view-append, Leaves-register_all answer cfg, Leaves-declare_trees cfg) refl

nothing :
    (b c : Bool) (x y : Option Value) → (if (b && same_bool false true) && c then x else y) ≡ y
unfolding same_bool
nothing b c x y = ground arith

-- The report of an input leaves the states of the relays alone.
pub Leaves-input_changed :
    (t : Tree) (k ch : ℕ) (on : Bool) (s : Bridge) → Leaves t false k (input_changed ch on s).1
unfolding input_changed view
Leaves-input_changed t k ch on s held = elim (Bool-cases s.ready) [
  | inl e ↦ simp e (
      Leaves-append t false k (if s.started && inputs_on s.cfg then each_tree s.cfg states else [])
        (if s.started && alarm_configured s.cfg ch then each_tree s.cfg alarms else [])
        (Leaves-when t false k (s.started && inputs_on s.cfg) (each_tree s.cfg states) (
          Leaves-each_tree t false k s.cfg states (λ u.
            Leaves-append t false k (publish_description u true ch) (publish_state u true ch on)
              (state-publish_description t false k u true ch) (other_bank u))))
        (Leaves-when t false k (s.started && alarm_configured s.cfg ch) (each_tree s.cfg alarms) (
          Leaves-each_tree t false k s.cfg alarms
            (λ u. state-publish_notification t false k s.cfg u ch on)))
        held)
  | inr e ↦ simp e refl
]
  where
    states : Tree → List Call
    states u = publish_description u true ch ++ publish_state u true ch on

    alarms : Tree → List Call
    alarms u = publish_notification s.cfg u ch on

    other_bank : (u : Tree) → Leaves t false k (publish_state u true ch on)
    other_bank u v =
        state-publish_state t false k u true ch on v
        ∙ nothing (same_tree t u) (k == ch) (shown on) v

-- The settings that need a restart, and what the handlers keep.
pub record SameSetup (a b : Bridge) : Type 0 where
  pub ready : b.ready ≡ a.ready
  pub started : b.started ≡ a.started
  pub bank_id : b.cfg.bank_id ≡ a.cfg.bank_id
  pub input_bank_id : b.cfg.input_bank_id ≡ a.cfg.input_bank_id
  pub switches_tree : b.cfg.publish_switches_tree ≡ a.cfg.publish_switches_tree
  pub controls_tree : b.cfg.publish_controls_tree ≡ a.cfg.publish_controls_tree

pub update_channels-SameSetup :
    (io : Io) (new : Config) (n : ℕ) (s : Bridge) → SameSetup s (update_channels io new n s).0
unfolding update_channels with_alarm with_names
update_channels-SameSetup io new zero s = ground arith
update_channels-SameSetup io new (suc i) s = ground (arith, update_channels-SameSetup io new i s)

pub update_config-SameSetup :
    (io : Io) (new : Config) (s : Bridge) → SameSetup s (update_config io new s).0
unfolding update_config update_periods
update_config-SameSetup io new s = ground (arith, update_channels-SameSetup io new channels s)
