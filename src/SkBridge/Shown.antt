-- ===== src/SkBridge/Shown.antt =====
-- What the server shows after everything is published, or the states are.
use signalk_esp_os_8relay.Base.{
  ℕ, ◌-◌, ◌≡◌, refl, ◌∙◌, arith, same_at, if◌then◌else◌, Bool, true, false, not, ◌&&◌, ◌==◌, ltb,
  leb, Option,
}
use signalk_esp_os_8relay.Base.Bits.{test}
use signalk_esp_os_8relay.Board.{channels}
use signalk_esp_os_8relay.DeviceConfig.{Config}
use signalk_esp_os_8relay.SkBridge.Text.{Tree}
use signalk_esp_os_8relay.SkBridge.Publish.{
  Io, tree_on, inputs_on, alarm_configured, states_of, publish_states, all_of, publish_all,
  publish_state, each_tree,
}
use signalk_esp_os_8relay.SkBridge.State.{Bridge, stream_changed, relay_changed}
use signalk_esp_os_8relay.SkBridge.View.{
  Value, is_state, is_alarm, view, view-append, view-when, shown, view-each_tree,
  view-each_tree_channel, same_tree, same_bool, state-publish_description, state-publish_counters,
  state-publish_notification, state-publish_state, notice, alarm-publish_description,
  alarm-publish_counters, alarm-publish_notification, alarm-publish_state,
}

-- The bit of the mask of a bank, and whether the bank is published at all.
unfoldable pub bit_of : Io → Bool → ℕ → Bool
bit_of io input k = test (if input then io.input_mask 0 else io.relay_mask) (k - 1)

unfoldable pub is_live : Config → Io → Bool → Bool
is_live cfg io input = if input then inputs_on cfg && io.inputs_ready 0 else true

same_if {ℓ} : {A : Type ℓ} (b : Bool) (x : A) → (if b then x else x) ≡ x
same_if true x = refl
same_if false x = refl

-- Of a channel that is picked by its number, the bit is that of the number.
pick-bit :
    (hit : Bool) (mask k ch : ℕ) (held : Option Value)
    → (if hit && k == ch then shown (test mask (ch - 1)) else held)
      ≡ (if hit && k == ch then shown (test mask (k - 1)) else held)
pick-bit hit mask k ch held = ground (arith, same_at (λ (c : ℕ). shown (test mask (c - 1))) k ch)

-- The two banks, one after the other.
both_banks :
    (here live same input : Bool) (inputs relays k : ℕ) (held : Option Value)
    → (if live
        then if (here && same_bool input true) && same
          then shown (test inputs (k - 1))
          else if (here && same_bool input false) && same
          then shown (test relays (k - 1))
          else held
        else if (here && same_bool input false) && same
        then shown (test relays (k - 1))
        else held)
      ≡ (if (here && (if input then live else true)) && same
          then shown (test (if input then inputs else relays) (k - 1))
          else held)
unfolding same_bool
both_banks here live same true inputs relays k held = ground arith
both_banks here live same false inputs relays k held = ground arith

pick-notice :
    (cfg : Config) (here live : Bool) (mask k ch : ℕ) (held : Option Value)
    → (if live
        then if alarm_configured cfg ch
          then if here && k == ch then notice cfg ch (test mask (ch - 1)) else held
          else held
        else held)
      ≡ (if (here && (live && alarm_configured cfg k)) && k == ch
          then notice cfg k (test mask (k - 1))
          else held)
pick-notice cfg here live mask k ch held = ground (
  arith,
  same_at (λ (c : ℕ). notice cfg c (test mask (c - 1))) k ch,
  same_at (λ (c : ℕ). alarm_configured cfg c) k ch,
)

and_assoc :
    (a b c : Bool) (x y : Option Value)
    → (if (a && b) && c then x else y) ≡ (if a && (b && c) then x else y)
and_assoc a b c x y = ground arith

module _ (cfg : Config) (io : Io) (t : Tree) (k : ℕ) where
  state-all_of :
      (input : Bool) (u : Tree) (ch : ℕ) (held : Option Value)
      → view (is_state t input k) (all_of cfg io u ch) held ≡ (
          if (same_tree t u && is_live cfg io input) && k == ch
          then shown (bit_of io input k)
          else held)
  unfolding all_of is_live bit_of
  state-all_of input u ch held =
      simp
        (
          view-append,
          view-when,
          state-publish_description t input k,
          state-publish_counters t input k,
          state-publish_notification t input k,
          state-publish_state t input k,
          same_if,
          pick-bit,
        )
        (both_banks (same_tree t u) (inputs_on cfg && io.inputs_ready 0) (k == ch) input
          (io.input_mask 0) io.relay_mask k held)

  state-states_of :
      (input : Bool) (u : Tree) (ch : ℕ) (held : Option Value)
      → view (is_state t input k) (states_of cfg io u ch) held ≡ (
          if (same_tree t u && is_live cfg io input) && k == ch
          then shown (bit_of io input k)
          else held)
  unfolding states_of is_live bit_of
  state-states_of input u ch held =
      simp
        (
          view-append,
          view-when,
          state-publish_counters t input k,
          state-publish_notification t input k,
          state-publish_state t input k,
          same_if,
          pick-bit,
        )
        (both_banks (same_tree t u) (inputs_on cfg && io.inputs_ready 0) (k == ch) input
          (io.input_mask 0) io.relay_mask k held)

  -- What is left of a state after everything is published.
  pub state-publish_all :
      (input : Bool) (held : Option Value)
      → view (is_state t input k) (publish_all cfg io) held ≡ (
          if tree_on cfg t && (is_live cfg io input && ltb 0 k && leb k channels)
          then shown (bit_of io input k)
          else held)
  unfolding publish_all
  state-publish_all input held =
      view-each_tree_channel (is_state t input k) cfg (all_of cfg io) t (is_live cfg io input) k
        (shown (bit_of io input k)) (state-all_of input) channels held

  -- The periodic republishing leaves the same.
  pub state-publish_states :
      (input : Bool) (held : Option Value)
      → view (is_state t input k) (publish_states cfg io) held ≡ (
          if tree_on cfg t && (is_live cfg io input && ltb 0 k && leb k channels)
          then shown (bit_of io input k)
          else held)
  unfolding publish_states
  state-publish_states input held =
      view-each_tree_channel (is_state t input k) cfg (states_of cfg io) t (is_live cfg io input) k
        (shown (bit_of io input k)) (state-states_of input) channels held

  alarm-all_of :
      (u : Tree) (ch : ℕ) (held : Option Value)
      → view (is_alarm t k) (all_of cfg io u ch) held ≡ (
          if (same_tree t u && (is_live cfg io true && alarm_configured cfg k)) && k == ch
          then notice cfg k (bit_of io true k)
          else held)
  unfolding all_of is_live bit_of
  alarm-all_of u ch held =
      simp
        (
          view-append,
          view-when,
          alarm-publish_description t k,
          alarm-publish_counters t k,
          alarm-publish_notification t k,
          alarm-publish_state t k,
        )
        (pick-notice cfg (same_tree t u) (inputs_on cfg && io.inputs_ready 0) (io.input_mask 0) k ch
          held)

  -- What is left of an alarm after everything is published.
  alarm-publish_all :
      (held : Option Value)
      → view (is_alarm t k) (publish_all cfg io) held ≡ (
          if tree_on cfg t
            && ((is_live cfg io true && alarm_configured cfg k) && ltb 0 k && leb k channels)
          then notice cfg k (bit_of io true k)
          else held)
  unfolding publish_all
  alarm-publish_all held =
      view-each_tree_channel (is_alarm t k) cfg (all_of cfg io) t
        (is_live cfg io true && alarm_configured cfg k) k (notice cfg k (bit_of io true k))
        alarm-all_of channels held

module _ (io : Io) (s : Bridge) (t : Tree) (input : Bool) (k : ℕ) (held : Option Value) where
  -- When the stream comes up on a bridge that has been started, the calls leave the state of a
  -- channel from 1 to 8 of the relays, and of the inputs if they have a bank of their own and are
  -- ready, in each enabled tree as its bit in the mask; the alarm of an input that has one set is
  -- left as that bit says; every other state and alarm stays as the server held it.
  pub stream_changed-shown :
      s.ready ≡ true
      → s.started ≡ true
      → (view (is_state t input k) (stream_changed io true s).1 held ≡ (
          if tree_on s.cfg t && (is_live s.cfg io input && ltb 0 k && leb k channels)
          then shown (bit_of io input k)
          else held))
        × (view (is_alarm t k) (stream_changed io true s).1 held ≡ (
            if tree_on s.cfg t
              && ((is_live s.cfg io true && alarm_configured s.cfg k) && ltb 0 k && leb k channels)
            then notice s.cfg k (bit_of io true k)
            else held))
  unfolding stream_changed
  stream_changed-shown ready started =
      simp (ready, started)
        (state-publish_all s.cfg io t k input held, alarm-publish_all s.cfg io t k held)

-- The state that a report publishes in the enabled trees.
report_state :
    (cfg : Config) (t : Tree) (input input' : Bool) (k ch : ℕ) (on : Bool) (held : Option Value)
    → view (is_state t input k) (each_tree cfg (λ u. publish_state u input' ch on)) held
      ≡ (if tree_on cfg t && (same_bool input input' && k == ch) then shown on else held)
report_state cfg t input input' k ch on held =
    view-each_tree (is_state t input k) cfg (λ u. publish_state u input' ch on) t
      (same_bool input input' && k == ch) (shown on)
      (λ u v.
        state-publish_state t input k u input' ch on v
        ∙ and_assoc (same_tree t u) (same_bool input input') (k == ch) (shown on) v)
      held

module _ (io : Io) (s : Bridge) (t : Tree) (input : Bool) (k : ℕ) (held : Option Value) where
  -- A report on relay `ch` leaves, in each enabled tree, the state of that relay as its bit in the
  -- mask, if the bridge has been started and the relay is one of the eight, and every other state
  -- as the server held it.
  pub relay_changed-shown :
      (ch : ℕ)
      → view (is_state t input k) (relay_changed io ch s).1 held ≡ (
          if s.ready
            && s.started
            && tree_on s.cfg t
            && not input
            && k == ch
            && ltb 0 k
            && leb k channels
          then shown (bit_of io false k)
          else held)
  unfolding relay_changed bit_of view same_bool
  relay_changed-shown ch = ground (
    arith,
    report_state s.cfg t input false k ch (test io.relay_mask (ch - 1)) held,
    same_at (λ (c : ℕ). shown (test io.relay_mask (c - 1))) k ch,
  )
