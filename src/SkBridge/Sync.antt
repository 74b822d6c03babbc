-- ===== src/SkBridge/Sync.antt =====
-- What the server holds over any run: the state of every relay, while calls reach it.
use signalk_esp_os_8relay.Base.{
  ℕ, ◌-◌, ◌≡◌, refl, sym, ◌∙◌, ap, arith, inl, inr, if◌then◌else◌, Bool, Bool-cases, true, false,
  not, ◌&&◌, ◌||◌, ◌==◌, ltb, leb, List, Option, none, xor,
}
use signalk_esp_os_8relay.Base.Bits.{test}
use signalk_esp_os_8relay.Board.{channels, Status, ok}
use signalk_esp_os_8relay.DeviceConfig.{Config}
use signalk_esp_os_8relay.SkBridge.Text.{Tree}
use signalk_esp_os_8relay.SkBridge.Publish.{Io, Call, tree_on, publish_all, republish_ms}
use signalk_esp_os_8relay.SkBridge.State.{Bridge, init, start, relay_changed, republish_due, tick}
use signalk_esp_os_8relay.SkBridge.View.{Value, view, is_state, shown}
use signalk_esp_os_8relay.SkBridge.Shown.{bit_of, is_live, state-publish_all, relay_changed-shown}
use signalk_esp_os_8relay.SkBridge.Kept.{
  SameSetup, update_config-SameSetup, Leaves-update_config, Leaves-input_changed, view-start,
}
use signalk_esp_os_8relay.SkBridge.Refresh.{
  SameLink, update_config-SameLink, input_changed-SameLink, input_changed-SameSetup,
  stream_changed-SameSetup, tick-SameSetup, same_tree_on, relay_changed-bridge, stream_changed-link,
  stream_changed-state, tick-due, tick-quiet, tick-link,
}
use signalk_esp_os_8relay.SkBridge.Server.{
  World, after, switched, reported, connected, disconnected, period_over, ticked, Step, switch,
  report, connect, cut, disconnect, disturb, time, input, settings, Run, here, next, begun,
}

-- While calls reach the server, the bridge knows that the stream is up and when it last published
-- everything, and the server, unless disturbed since, holds the bit of every relay in the enabled
-- trees whose change has been reported.
pub record InSync (w : World) : Type 0 where
  pub ready : w.bridge.ready ≡ true
  pub started : w.bridge.started ≡ true
  pub connected_once : w.up ≡ true → w.bridge.connected_once ≡ true
  pub stays_up : w.up ≡ true → w.bridge.down ≡ false
  pub republished_at : w.up ≡ true → w.bridge.republished_at ≡ w.published_at
  pub fresh :
      (t : Tree) (k : ℕ)
      → (ltb 0 k && leb k channels) ≡ true
      → tree_on w.bridge.cfg t ≡ true
      → w.up ≡ true
      → w.intact ≡ true
      → w.unreported k ≡ false
      → w.server t k ≡ shown (test w.mask (k - 1))

-- A call that keeps the set-up and what the bridge knows of the stream, and leaves the states alone.
after-InSync :
    (w : World) (s : Bridge) (calls : List Call)
    → InSync w
    → SameSetup w.bridge s
    → SameLink w.bridge s
    → ((t : Tree) (k : ℕ) (held : Option Value) → view (is_state t false k) calls held ≡ held)
    → InSync (after w s calls)
unfolding after
after-InSync w s calls good same link kept = record {
  ready = same.ready ∙ good.ready;
  started = same.started ∙ good.started;
  connected_once = λ up. link.connected_once ∙ good.connected_once up;
  stays_up = λ up. link.down ∙ good.stays_up up;
  republished_at = λ up. link.republished_at ∙ good.republished_at up;
  fresh = λ t k range on up whole done.
      let old = good.fresh t k range (sym (same_tree_on same t) ∙ on) up whole done in
      rw up (kept t k (w.server t k) ∙ old);
}

module _ (w : World) (io : Io) (ch : ℕ) (same : io.relay_mask ≡ w.mask) (good : InSync w) where
  reported-fresh :
      (t : Tree) (k : ℕ)
      → (ltb 0 k && leb k channels) ≡ true
      → tree_on w.bridge.cfg t ≡ true
      → w.up ≡ true
      → w.intact ≡ true
      → (not (k == ch) && w.unreported k) ≡ false
      → view (is_state t false k) (relay_changed io ch w.bridge).1 (w.server t k)
        ≡ shown (test w.mask (k - 1))
  unfolding bit_of
  reported-fresh t k range on up whole done =
      let bits : test io.relay_mask (k - 1) ≡ test w.mask (k - 1) = λ i. test (same i) (k - 1) in
      let old = λ (e : w.unreported k ≡ false). good.fresh t k range on up whole e in
      let start = good.started in
      let can = good.ready in
      ground
        (arith, relay_changed-shown io w.bridge t false k (w.server t k) ch, bits, old, start, can)

  reported-InSync : InSync (reported w io ch)
  unfolding reported
  reported-InSync =
      let e = relay_changed-bridge io ch w.bridge in
      record {
        ready = ap (λ (s : Bridge). s.ready) e ∙ good.ready;
        started = ap (λ (s : Bridge). s.started) e ∙ good.started;
        connected_once = λ up. ap (λ (s : Bridge). s.connected_once) e ∙ good.connected_once up;
        stays_up = λ up. ap (λ (s : Bridge). s.down) e ∙ good.stays_up up;
        republished_at = λ up. ap (λ (s : Bridge). s.republished_at) e ∙ good.republished_at up;
        fresh = λ t k range on up whole done. rw up (
            reported-fresh t k range (sym (ap (λ (s : Bridge). tree_on s.cfg t) e) ∙ on) up whole
              done);
      }

test-eq :
    (w : World) (mask k : ℕ)
    → xor (test w.mask (k - 1)) (test mask (k - 1)) ≡ false
    → shown (test w.mask (k - 1)) ≡ shown (test mask (k - 1))
test-eq w mask k h = ground (arith, h)

switched-InSync : (w : World) (mask : ℕ) → InSync w → InSync (switched w mask)
unfolding switched
switched-InSync w mask good = record {
  ready = good.ready;
  started = good.started;
  connected_once = good.connected_once;
  stays_up = good.stays_up;
  republished_at = good.republished_at;
  fresh = λ t k range on up whole done.
      let old = λ (e : w.unreported k ≡ false). good.fresh t k range on up whole e in
      ground (arith, old, done, test-eq w mask k);
}

-- With the stream down or the server disturbed nothing is said of it.
cut-InSync : (w : World) → InSync w → InSync (record w { up = false })
cut-InSync w good = record {
  ready = good.ready;
  started = good.started;
  connected_once = λ up. cc;
  stays_up = λ up. cc;
  republished_at = λ up. cc;
  fresh = λ t k range on up whole done. cc;
}

disturbed-InSync :
    (w : World) (server : Tree → ℕ → Option Value)
    → InSync w
    → InSync (record w { server = server; intact = false })
disturbed-InSync w server good = record {
  ready = good.ready;
  started = good.started;
  connected_once = good.connected_once;
  stays_up = good.stays_up;
  republished_at = good.republished_at;
  fresh = λ t k range on up whole done. cc;
}

disconnected-InSync : (w : World) (io : Io) → InSync w → InSync (disconnected w io)
unfolding disconnected
disconnected-InSync w io good =
    let same = stream_changed-SameSetup io false w.bridge in
    record {
      ready = same.ready ∙ good.ready;
      started = same.started ∙ good.started;
      connected_once = λ up. cc;
      stays_up = λ up. cc;
      republished_at = λ up. cc;
      fresh = λ t k range on up whole done. cc;
    }

connected-InSync :
    (w : World) (io : Io) → io.relay_mask ≡ w.mask → InSync w → InSync (connected w io)
unfolding connected
connected-InSync w io now good =
    let same = stream_changed-SameSetup io true w.bridge in
    let (once, down, at) = stream_changed-link io w.bridge good.ready good.started in
    record {
      ready = same.ready ∙ good.ready;
      started = same.started ∙ good.started;
      connected_once = λ up. once;
      stays_up = λ up. down;
      republished_at = λ up. at;
      fresh = λ t k range on up whole done.
          stream_changed-state io w.bridge good.ready good.started t k (w.server t k) range
            (sym (same_tree_on same t) ∙ on)
          ∙ ap (λ m. shown (test m (k - 1))) now;
    }

module _ (w : World) (io : Io) (good : InSync w) where
  -- With the stream up, the bridge finds the period over when it is.
  period_over-due : w.up ≡ true → republish_due io w.bridge ≡ period_over w io
  unfolding republish_due republish_ms period_over
  period_over-due up =
      rw (good.started, good.connected_once up, good.stays_up up, good.republished_at up, up) refl

  ticked-at :
      w.up ≡ true
      → (tick io w.bridge).0.republished_at
        ≡ (if period_over w io then io.now_ms 2 else w.published_at)
  ticked-at up = elim (Bool-cases (period_over w io)) [
    | inl e ↦ rw e ((tick-due io w.bridge good.ready (period_over-due up ∙ e)).0)
    | inr e ↦
        rw e
          ((tick-quiet io w.bridge good.ready (period_over-due up ∙ e)).0 ∙ good.republished_at up)
  ]

  ticked-fresh :
      (t : Tree) (k : ℕ)
      → (ltb 0 k && leb k channels) ≡ true
      → tree_on w.bridge.cfg t ≡ true
      → w.up ≡ true
      → io.relay_mask ≡ w.mask
      → (w.intact || period_over w io) ≡ true
      → w.unreported k ≡ false
      → view (is_state t false k) (tick io w.bridge).1 (w.server t k) ≡ shown (test w.mask (k - 1))
  ticked-fresh t k range on up now whole done = elim (Bool-cases (period_over w io)) [
    | inl e ↦
        (tick-due io w.bridge good.ready (period_over-due up ∙ e)).1 t k (w.server t k) range on
        ∙ ap (λ m. shown (test m (k - 1))) now
    | inr e ↦
        let held : w.intact ≡ true = ground (arith, whole, e) in
        (tick-quiet io w.bridge good.ready (period_over-due up ∙ e)).1 t k (w.server t k)
        ∙ good.fresh t k range on up held done
  ]

  ticked-InSync : io.relay_mask ≡ w.mask → InSync (ticked w io)
  unfolding ticked
  ticked-InSync now =
      let same = tick-SameSetup io w.bridge in
      let (once, down) = tick-link io w.bridge good.ready in
      record {
        ready = same.ready ∙ good.ready;
        started = same.started ∙ good.started;
        connected_once = λ up. once ∙ good.connected_once up;
        stays_up = λ up. down ∙ good.stays_up up;
        republished_at = λ up. ticked-at up;
        fresh = λ t k range on up whole done.
            rw up (ticked-fresh t k range (sym (same_tree_on same t) ∙ on) up now whole done);
      }

Step-InSync : {w v : World} → Step w v → InSync w → InSync v
Step-InSync {w} (switch mask) good = switched-InSync w mask good
Step-InSync {w} (report io ch same) good = reported-InSync w io ch same good
Step-InSync {w} (connect io same) good = connected-InSync w io same good
Step-InSync {w} cut good = cut-InSync w good
Step-InSync {w} (disconnect io same) good = disconnected-InSync w io good
Step-InSync {w} (disturb server) good = disturbed-InSync w server good
Step-InSync {w} (time io same) good = ticked-InSync w io good same
Step-InSync {w} (input ch on) good =
    after-InSync w _ _ good (input_changed-SameSetup ch on w.bridge)
      (input_changed-SameLink ch on w.bridge)
      (λ t k held. Leaves-input_changed t k ch on w.bridge held)
Step-InSync {w} (settings io new) good =
    after-InSync w _ _ good (update_config-SameSetup io new w.bridge)
      (update_config-SameLink io new w.bridge)
      (λ t k held. Leaves-update_config t false k io new w.bridge held)

Run-InSync : {w v : World} → Run w v → InSync w → InSync v
Run-InSync here good = good
Run-InSync (next r st) good = Step-InSync st (Run-InSync r good)

start-kept :
    (created : Bool) (answer : Tree → ℕ → Status) (io : Io) (cfg : Config) (s : Bridge)
    → (init created s).1 ≡ ok
    → ((start created answer io cfg s).0.ready ≡ true)
      × ((start created answer io cfg s).0.started ≡ true)
      × ((start created answer io cfg s).0.cfg ≡ cfg)
      × ((start created answer io cfg s).0.connected_once ≡ s.connected_once)
      × ((start created answer io cfg s).0.down ≡ s.down)
      × ((start created answer io cfg s).0.republished_at ≡ io.now_ms 0)
unfolding start init
start-kept created answer io cfg s good = simp good (ready, refl, refl, once, down, refl)
  where
    ready : (init created s).0.ready ≡ true
    ready = ground (arith, good)

    once : (init created s).0.connected_once ≡ s.connected_once
    once = ground arith

    down : (init created s).0.down ≡ s.down
    down = ground arith

published :
    (cfg : Config) (io : Io) (t : Tree) (k : ℕ)
    → (ltb 0 k && leb k channels) ≡ true
    → tree_on cfg t ≡ true
    → view (is_state t false k) (publish_all cfg io) none ≡ shown (test io.relay_mask (k - 1))
unfolding bit_of is_live
published cfg io t k range on = ground (arith, state-publish_all cfg io t k false none)

begun-InSync :
    (created : Bool) (answer : Tree → ℕ → Status) (io : Io) (cfg : Config) (s : Bridge)
    → (init created s).1 ≡ ok
    → InSync (begun created answer io cfg s)
unfolding begun
begun-InSync created answer io cfg s good =
    let (ready, started, same, once, down, at) = start-kept created answer io cfg s good in
    record {
      ready = ready;
      started = started;
      connected_once = λ up. ground (arith, once, up);
      stays_up = λ up. ground (arith, down, up);
      republished_at = λ up. at;
      fresh = λ t k range on up whole done. rw up (
          view-start t false k created answer io cfg s good none
          ∙ published cfg io t k range (sym (ap (λ (c : Config). tree_on c t) same) ∙ on));
    }

module _ (created : Bool) (answer : Tree → ℕ → Status) (io : Io) (cfg : Config) (s : Bridge) where
  -- After sk_bridge_init() and sk_bridge_start(), and then any interleaving of relays that switch,
  -- their reports in any order, the stream coming and going, calls that are lost while it is down
  -- or before its loss is noticed, the server losing or overwriting what it holds, ticks, reports
  -- of inputs and saved settings, the server holds, for every relay from 1 to 8 in every enabled
  -- tree, the state that the relay has: this if sk_bridge_init() succeeds, each call reads the
  -- relays as they are when it runs, the stream is up, every change of the relay has been reported,
  -- and since the server last lost or overwrote anything the stream has come up or a tick at the
  -- end of the republishing period has run.
  pub Run-synced :
      {w : World} (t : Tree) (k : ℕ)
      → (init created s).1 ≡ ok
      → Run (begun created answer io cfg s) w
      → ltb 0 k && leb k channels ≡ true
      → tree_on w.bridge.cfg t ≡ true
      → w.up ≡ true
      → w.intact ≡ true
      → w.unreported k ≡ false
      → w.server t k ≡ shown (test w.mask (k - 1))
  Run-synced t k good r range on up whole done =
      (Run-InSync r (begun-InSync created answer io cfg s good)).fresh t k range on up whole done
