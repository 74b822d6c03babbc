-- ===== src/SkBridge/Refresh.antt =====
-- What the calls of the bridge make of the states of the relays and of what it knows of the stream.
use signalk_esp_os_8relay.Base.{
  ℕ, ◌-◌, ◌≡◌, refl, arith, Bool, true, false, ◌&&◌, ltb, leb, Option, zero, suc,
}
use signalk_esp_os_8relay.Base.Bits.{test}
use signalk_esp_os_8relay.Board.{channels}
use signalk_esp_os_8relay.DeviceConfig.{Config}
use signalk_esp_os_8relay.SkBridge.Text.{Tree, switches, controls}
use signalk_esp_os_8relay.SkBridge.Publish.{Io, tree_on}
use signalk_esp_os_8relay.SkBridge.State.{
  Bridge, update_channels, update_periods, update_config, relay_changed, input_changed,
  stream_changed, republish_due, tick,
}
use signalk_esp_os_8relay.SkBridge.View.{Value, view, is_state, shown}
use signalk_esp_os_8relay.SkBridge.Shown.{bit_of, is_live, state-publish_all, state-publish_states}
use signalk_esp_os_8relay.SkBridge.Kept.{SameSetup}

-- The bridge knows the same of the stream.
pub record SameLink (a b : Bridge) : Type 0 where
  pub connected_once : b.connected_once ≡ a.connected_once
  pub down : b.down ≡ a.down
  pub republished_at : b.republished_at ≡ a.republished_at

update_channels-SameLink :
    (io : Io) (new : Config) (n : ℕ) (s : Bridge) → SameLink s (update_channels io new n s).0
unfolding update_channels
update_channels-SameLink io new zero s = record {
  connected_once = refl;
  down = refl;
  republished_at = refl;
}
update_channels-SameLink io new (suc n) s =
    let same = update_channels-SameLink io new n s in
    record {
      connected_once = same.connected_once;
      down = same.down;
      republished_at = same.republished_at;
    }

pub update_config-SameLink :
    (io : Io) (new : Config) (s : Bridge) → SameLink s (update_config io new s).0
unfolding update_config update_periods
update_config-SameLink io new s = ground (arith, update_channels-SameLink io new channels s)

pub input_changed-SameLink :
    (ch : ℕ) (on : Bool) (s : Bridge) → SameLink s (input_changed ch on s).0
unfolding input_changed
input_changed-SameLink ch on s = ground arith

pub input_changed-SameSetup :
    (ch : ℕ) (on : Bool) (s : Bridge) → SameSetup s (input_changed ch on s).0
unfolding input_changed
input_changed-SameSetup ch on s = ground arith

pub stream_changed-SameSetup :
    (io : Io) (connected : Bool) (s : Bridge) → SameSetup s (stream_changed io connected s).0
unfolding stream_changed
stream_changed-SameSetup io connected s = ground arith

pub tick-SameSetup : (io : Io) (s : Bridge) → SameSetup s (tick io s).0
unfolding tick
tick-SameSetup io s = ground arith

pub same_tree_on : {a b : Bridge} → SameSetup a b → (t : Tree) → tree_on b.cfg t ≡ tree_on a.cfg t
unfolding tree_on
same_tree_on same switches = same.switches_tree
same_tree_on same controls = same.controls_tree

pub relay_changed-bridge : (io : Io) (ch : ℕ) (s : Bridge) → (relay_changed io ch s).0 ≡ s
unfolding relay_changed
relay_changed-bridge io ch s = ground arith

-- Everything is published when the stream comes up.
module _ (io : Io) (s : Bridge) (ready : s.ready ≡ true) (started : s.started ≡ true) where
  pub stream_changed-link :
      ((stream_changed io true s).0.connected_once ≡ true)
      × ((stream_changed io true s).0.down ≡ false)
      × ((stream_changed io true s).0.republished_at ≡ io.now_ms 0)
  unfolding stream_changed
  stream_changed-link = simp (ready, started) (refl, refl, refl)

  pub stream_changed-state :
      (t : Tree) (k : ℕ) (held : Option Value)
      → (ltb 0 k && leb k channels) ≡ true
      → tree_on s.cfg t ≡ true
      → view (is_state t false k) (stream_changed io true s).1 held
        ≡ shown (test io.relay_mask (k - 1))
  unfolding stream_changed bit_of is_live
  stream_changed-state t k held range on =
      simp (ready, started) (ground (arith, state-publish_all s.cfg io t k false held, on, range))

-- A tick publishes everything when the period is over, and else nothing.
module _ (io : Io) (s : Bridge) (ready : s.ready ≡ true) where
  pub tick-due :
      republish_due io s ≡ true
      → ((tick io s).0.republished_at ≡ io.now_ms 2)
        × ((t : Tree) (k : ℕ) (held : Option Value)
            → (ltb 0 k && leb k channels) ≡ true
            → tree_on s.cfg t ≡ true
            → view (is_state t false k) (tick io s).1 held ≡ shown (test io.relay_mask (k - 1)))
  unfolding tick bit_of is_live
  tick-due due =
      simp (ready, due)
        (
          refl,
          λ t k held range on.
              ground (arith, state-publish_states s.cfg io t k false held, on, range),
        )

  pub tick-quiet :
      republish_due io s ≡ false
      → ((tick io s).0.republished_at ≡ s.republished_at)
        × ((t : Tree) (k : ℕ) (held : Option Value)
            → view (is_state t false k) (tick io s).1 held ≡ held)
  unfolding tick view
  tick-quiet quiet = simp (ready, quiet) (refl, λ t k held. refl)

  pub tick-link : ((tick io s).0.connected_once ≡ s.connected_once) × ((tick io s).0.down ≡ s.down)
  unfolding tick
  tick-link = ground arith
