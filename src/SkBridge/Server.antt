-- ===== src/SkBridge/Server.antt =====
-- The bridge beside the relays and the server, step by step: relays change and their listeners report
-- in any order, the stream comes and goes, calls are lost while it is down, the server may lose or
-- overwrite what it holds, settings are saved.
use signalk_esp_os_8relay.Base.{
  ℕ, ◌-◌, ◌*◌, ◌≡◌, if◌then◌else◌, Bool, true, false, not, ◌&&◌, ◌||◌, ◌==◌, leb, List, Option,
  none, xor,
}
use signalk_esp_os_8relay.Base.Bits.{test}
use signalk_esp_os_8relay.Base.Words.{u32, sub32}
use signalk_esp_os_8relay.Board.{Status}
use signalk_esp_os_8relay.DeviceConfig.{Config}
use signalk_esp_os_8relay.SkBridge.Text.{Tree}
use signalk_esp_os_8relay.SkBridge.Publish.{Io, Call}
use signalk_esp_os_8relay.SkBridge.State.{
  Bridge, start, update_config, relay_changed, input_changed, stream_changed, tick,
}
use signalk_esp_os_8relay.SkBridge.View.{Value, view, is_state}

-- The bridge, the mask of the relays, the channels whose change has not been reported yet, what the
-- server holds for the state of each relay in each tree, whether calls reach it, whether it has kept
-- what it was sent since everything was last published, and when that was.
pub record World : Type 0 where
  pub bridge : Bridge
  pub mask : ℕ
  pub unreported : ℕ → Bool
  pub server : Tree → ℕ → Option Value
  pub up : Bool
  pub intact : Bool
  pub published_at : ℕ

-- The world after a call of the bridge. What it sends is lost while the stream is down.
unfoldable pub after : World → Bridge → List Call → World
after w s calls = record w {
  bridge = s;
  server = λ t k. if w.up then view (is_state t false k) calls (w.server t k) else w.server t k;
}

-- The mask takes a new value; a relay that it changes is to be reported.
unfoldable pub switched : World → ℕ → World
switched w mask = record w {
  mask = mask;
  unreported = λ k. w.unreported k || xor (test w.mask (k - 1)) (test mask (k - 1));
}

-- The listener of relay `ch` runs.
unfoldable pub reported : World → Io → ℕ → World
unfolding after
reported w io ch =
    record (after w (relay_changed io ch w.bridge).0 (relay_changed io ch w.bridge).1) {
      unreported = λ k. not (k == ch) && w.unreported k;
    }

-- The stream comes up.
unfoldable pub connected : World → Io → World
unfolding after
connected w io =
    record (after (record w { up = true }) (stream_changed io true w.bridge).0
      (stream_changed io true w.bridge).1) { intact = true; published_at = io.now_ms 0 }

-- It is reported as down.
unfoldable pub disconnected : World → Io → World
unfolding after
disconnected w io =
    record (after w (stream_changed io false w.bridge).0 (stream_changed io false w.bridge).1) {
      up = false;
    }

-- The period after which everything is to be published again, 0 for never, is over.
unfoldable pub period_over : World → Io → Bool
period_over w io =
    let period = u32 (w.bridge.cfg.sk_republish_s * 1000) in
    w.up && not (period == 0) && leb period (sub32 (io.now_ms 1) w.published_at)

unfoldable pub ticked : World → Io → World
unfolding after period_over
ticked w io =
    let due = period_over w io in
    record (after w (tick io w.bridge).0 (tick io w.bridge).1) {
      intact = w.intact || due;
      published_at = if due then io.now_ms 2 else w.published_at;
    }

-- One step. A call reads the mask as it is.
pub data Step (w : World) : World → Type 0 where
  switch : (mask : ℕ) → Step w (switched w mask)
  report : (io : Io) (ch : ℕ) → io.relay_mask ≡ w.mask → Step w (reported w io ch)
  connect : (io : Io) → io.relay_mask ≡ w.mask → Step w (connected w io)
  -- Calls stop arriving before the bridge is told.
  cut : Step w (record w { up = false })
  disconnect : (io : Io) → io.relay_mask ≡ w.mask → Step w (disconnected w io)
  -- The server restarts, or another client writes.
  disturb :
      (server : Tree → ℕ → Option Value) → Step w (record w { server = server; intact = false })
  time : (io : Io) → io.relay_mask ≡ w.mask → Step w (ticked w io)
  input :
      (ch : ℕ) (on : Bool)
      → Step w (after w (input_changed ch on w.bridge).0 (input_changed ch on w.bridge).1)
  settings :
      (io : Io) (new : Config)
      → Step w (after w (update_config io new w.bridge).0 (update_config io new w.bridge).1)

pub data Run (w : World) : World → Type 0 where
  here : Run w w
  next : {u v : World} → Run w u → Step u v → Run w v

-- After start(), with nothing handed over before it and every change so far reported; the stream may
-- have been up before.
unfoldable pub begun : Bool → (Tree → ℕ → Status) → Io → Config → Bridge → World
begun created answer io cfg s =
    let up = s.connected_once && not s.down in
    record {
      bridge = (start created answer io cfg s).0;
      mask = io.relay_mask;
      unreported = λ k. false;
      server = λ t k.
          if up then view (is_state t false k) (start created answer io cfg s).1 none else none;
      up = up;
      intact = true;
      published_at = io.now_ms 0;
    }
