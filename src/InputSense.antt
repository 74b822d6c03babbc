-- ===== src/InputSense.antt =====
-- components/input_sense/src/input_sense.c: the debounced inputs, their reports and their overrides.
-- The pins and the clock are read once at the start of a call, and are arguments here. A loop over
-- BOARD_CHANNELS that gives each entry of an array a new value is a function of the index. `ready`
-- and `published` are atomics in C; one task writes them.
pub mod Poll
pub mod Settle
pub mod Start
pub mod Events
use signalk_esp_os_8relay.Base.{
  ℕ, zero, suc, ◌+◌, if◌then◌else◌, Bool, true, false, not, ◌&&◌, ◌||◌, ◌==◌, ltb, xor, List, [],
  ◌∷◌, ◌++◌, map, length, bit_xor,
}
use signalk_esp_os_8relay.Base.Bits.{test}
use signalk_esp_os_8relay.Base.Masks.{mask_of}
use signalk_esp_os_8relay.Board.{channels, di_active_low, Status, ok, fail, no_mem}
use signalk_esp_os_8relay.DeviceConfig.{Config, Link, InputCfg, RelayCfg}

-- input_action_t
pub data InputAction : Type 0 where
  act_off act_on act_toggle : InputAction

-- The calls out of the module: of a listener, with its arguments, and of `s.override`.
pub data Event : Type 0 where
  report : (listener channel : ℕ) → (on : Bool) → (mask : ℕ) → Event
  override_ : (relay : ℕ) → InputAction → Event

abbrev pub max_listeners : ℕ
max_listeners = 4

abbrev pub startup_grace_ms : ℕ
startup_grace_ms = 1000

-- `s`. No listener is ever removed, so the slots in use are a list.
pub record Inputs : Type 0 where
  pub cfg : Config
  pub candidate : ℕ → Bool
  pub candidate_since : ℕ → ℕ
  pub stable : ℕ
  pub start_ms : ℕ
  pub late : ℕ
  pub published : ℕ
  pub ready : Bool
  pub listeners : List ℕ

unfoldable pub read_input : Config → ℕ → ℕ → Bool
read_input cfg raw i =
    let level = test raw i in
    let energised = if di_active_low then not level else level in
    xor energised (cfg.inputs i).invert

-- notify
unfoldable pub report_input : List ℕ → ℕ → Bool → ℕ → List Event
report_input listeners i on mask = map (λ l. report l (i + 1) on mask) listeners

-- One round of the loop in apply_override(), for relay `r`.
unfoldable pub override_relay : Config → ℕ → Bool → Bool → ℕ → List Event
override_relay cfg i on boot r =
    if not ((cfg.relays r).override_di == i + 1) then [] else elim (cfg.relays r).link [
      | Link.toggle ↦ if on && not boot then override_ (r + 1) act_toggle ∷ [] else []
      | Link.follow ↦ override_ (r + 1) (if on then act_on else act_off) ∷ []
    ]

-- The events of the first `n` rounds of a loop, in order.
unfoldable pub each : (ℕ → List Event) → ℕ → List Event
each f zero = []
each f (suc n) = each f n ++ f n

unfoldable pub apply_override : Config → ℕ → Bool → Bool → List Event
unfolding each override_relay
apply_override cfg i on boot = each (override_relay cfg i on boot) channels

unfoldable pub init : Config → List ℕ → ℕ → ℕ → Inputs
unfolding read_input
init cfg listeners raw now = record {
  cfg = cfg;
  candidate = read_input cfg raw;
  candidate_since = λ _. now;
  stable = 0;
  start_ms = now;
  late = 0;
  published = 0;
  ready = false;
  listeners = listeners;
}

-- input_sense_update_config
unfoldable pub update_config : Config → Inputs → Inputs × List Event
unfolding report_input each
update_config cfg s =
    let changes : ℕ → Bool = λ i. xor (cfg.inputs i).invert (s.cfg.inputs i).invert in
    let flipped = mask_of channels changes in
    let s1 = record s { cfg = cfg; candidate = λ i. xor (s.candidate i) (changes i) } in
    if flipped == 0 || not s.ready
    then (s1, [])
    else (let stable = bit_xor s.stable flipped in
        (
          record s1 { stable = stable; published = stable },
          each
              (λ i.
                if test flipped i then report_input s.listeners i (test stable i) stable else [])
              channels,
        ))

-- input_sense_add_listener
unfoldable pub add_listener : Inputs → ℕ → Inputs × Status
add_listener s cb =
    if ltb (length s.listeners) max_listeners
    then (record s { listeners = s.listeners ++ (cb ∷ []) }, ok)
    else (s, fail no_mem)
