-- ===== src/SkBridge/Lost.antt =====
-- When the loss of the server is reported: once in each outage, at the first tick after the grace
-- period.
use signalk_esp_os_8relay.Base.{
  ℕ, zero, suc, ◌<◌, ◌+◌, ◌*◌, ◌≤◌, ◌≡◌, refl, arith, if◌then◌else◌, Bool, true, false, not, ◌&&◌,
  ◌||◌, List, [], ◌∷◌,
}
use signalk_esp_os_8relay.Base.Words.{u32, sub32}
use signalk_esp_os_8relay.DeviceConfig.{Config}
use signalk_esp_os_8relay.SkBridge.Publish.{Io}
use signalk_esp_os_8relay.SkBridge.State.{
  Bridge, stream_changed, tick, update_config, update_channels, update_periods, loss_due,
}

-- What can happen to the bridge after it is started.
pub data Event : Type 0 where
  stream : Io → Bool → Event
  time : Io → Event
  settings : Io → Config → Event

unfoldable pub step : Event → Bridge → Bridge
step (stream io connected) s = (stream_changed io connected s).0
step (time io) s = (tick io s).0
step (settings io new) s = (update_config io new s).0

-- How often sk_lost() is called, 0 or 1.
unfoldable pub fired : Event → Bridge → ℕ
fired (stream io connected) s = 0
fired (time io) s = if (tick io s).2 then 1 else 0
fired (settings io new) s = 0

-- Whether an outage begins: the stream that was up is reported as down.
unfoldable pub begins : Event → Bridge → ℕ
begins (stream io true) s = 0
begins (stream io false) s = if s.ready && s.connected_once && not s.down then 1 else 0
begins (time io) s = 0
begins (settings io new) s = 0

unfoldable pub run : List Event → Bridge → Bridge
run [] s = s
run (e ∷ es) s = run es (step e s)

unfoldable pub fires : List Event → Bridge → ℕ
fires [] s = 0
fires (e ∷ es) s = fired e s + fires es (step e s)

unfoldable pub outages : List Event → Bridge → ℕ
outages [] s = 0
outages (e ∷ es) s = begins e s + outages es (step e s)

-- Whether a loss is still to be reported.
unfoldable pub owed : Bridge → ℕ
owed s = if s.down && not s.lost_fired then 1 else 0

update_channels-owed :
    (io : Io) (new : Config) (n : ℕ) (s : Bridge)
    → ((update_channels io new n s).0.down ≡ s.down)
      × ((update_channels io new n s).0.lost_fired ≡ s.lost_fired)
unfolding update_channels
update_channels-owed io new zero s = (refl, refl)
update_channels-owed io new (suc n) s = update_channels-owed io new n s

step-owed : (e : Event) (s : Bridge) → fired e s + owed (step e s) ≤ begins e s + owed s
unfolding fired owed step begins stream_changed tick loss_due update_config update_periods
step-owed (stream io true) s = ground arith
step-owed (stream io false) s = ground arith
step-owed (time io) s = ground arith
step-owed (settings io new) s = ground (arith, update_channels-owed io new 8 s)

-- Over any sequence of the stream coming and going, ticks and saved settings, the loss is reported
-- at most once for each outage that begins, counting one that had begun before and was still to be
-- reported.
pub fires-outages : (es : List Event) (s : Bridge) → fires es s ≤ outages es s + owed s
unfolding fires outages
fires-outages [] s = omega arith
fires-outages (e ∷ es) s = omega (arith, fires-outages es (step e s), step-owed e s)

-- Ticks only.
unfoldable pub after_ticks : List Io → Bridge → Bridge
after_ticks [] s = s
after_ticks (io ∷ ios) s = after_ticks ios (tick io s).0

unfoldable pub tick_fires : List Io → Bridge → ℕ
tick_fires [] s = 0
tick_fires (io ∷ ios) s = (if (tick io s).2 then 1 else 0) + tick_fires ios (tick io s).0

-- The stream has been down since `since`, unreported, with a grace period of `grace` milliseconds.
record Waiting (since grace : ℕ) (s : Bridge) : Type 0 where
  ready : s.ready ≡ true
  down : s.down ≡ true
  open_loss : s.lost_fired ≡ false
  tree : (s.cfg.publish_switches_tree || s.cfg.publish_controls_tree) ≡ true
  since_then : s.down_since ≡ since
  period : u32 (s.cfg.sk_loss_grace_s * 1000) ≡ grace

module _ (since grace : ℕ) where
  tick-early :
      (io : Io) (s : Bridge)
      → sub32 (io.now_ms 0) since < grace
      → Waiting since grace s
      → ((tick io s).2 ≡ false) × Waiting since grace (tick io s).0
  unfolding tick loss_due
  tick-early io s early w =
      let same : sub32 (io.now_ms 0) s.down_since ≡ sub32 (io.now_ms 0) since =
        λ i. sub32 (io.now_ms 0) (w.since_then i) in
      ground (arith, same)

  -- All of the ticks come before the period is over.
  abbrev pub AllEarly : List Io → Type 0
  AllEarly [] = Unit {0}
  AllEarly (io ∷ ios) = (sub32 (io.now_ms 0) since < grace) × AllEarly ios

  early_ticks :
      (ios : List Io) (s : Bridge)
      → AllEarly ios
      → Waiting since grace s
      → (tick_fires ios s ≡ 0) × Waiting since grace (after_ticks ios s)
  unfolding tick_fires after_ticks
  early_ticks [] s early w = (refl, w)
  early_ticks (io ∷ ios) s early w =
      let (quiet, w1) = tick-early io s early.0 w in
      let (rest, w2) = early_ticks ios (tick io s).0 early.1 w1 in (simp (quiet, rest) refl, w2)

  tick-due :
      (io : Io) (s : Bridge)
      → grace ≤ sub32 (io.now_ms 0) since
      → Waiting since grace s
      → ((tick io s).2 ≡ true) × ((tick io s).0.lost_fired ≡ true)
  unfolding tick loss_due
  tick-due io s due w =
      let same : sub32 (io.now_ms 0) s.down_since ≡ sub32 (io.now_ms 0) since =
        λ i. sub32 (io.now_ms 0) (w.since_then i) in
      ground (arith, same)

tick-reported :
    (io : Io) (s : Bridge)
    → s.lost_fired ≡ true
    → ((tick io s).2 ≡ false) × ((tick io s).0.lost_fired ≡ true)
unfolding tick loss_due
tick-reported io s h = ground arith

late_ticks : (ios : List Io) (s : Bridge) → s.lost_fired ≡ true → tick_fires ios s ≡ 0
unfolding tick_fires
late_ticks [] s h = refl
late_ticks (io ∷ ios) s h =
    let (quiet, still) = tick-reported io s h in
    simp (quiet, late_ticks ios (tick io s).0 still) refl

module _ (s : Bridge) (lost io : Io) (early late : List Io) (ready : s.ready ≡ true)
    (connected : s.connected_once ≡ true) (up : s.down ≡ false)
    (tree : (s.cfg.publish_switches_tree || s.cfg.publish_controls_tree) ≡ true) where
  fallen :
      Waiting (lost.now_ms 0) (u32 (s.cfg.sk_loss_grace_s * 1000)) (stream_changed lost false s).0
  unfolding stream_changed
  fallen = ground arith

  -- When a stream that was up goes down while a tree is enabled, no tick before the end of the
  -- grace period reports the loss, the first tick after it does, and no later tick of the same
  -- outage does so again; the times count on a clock that wraps.
  pub outage-reported :
      AllEarly (lost.now_ms 0) (u32 (s.cfg.sk_loss_grace_s * 1000)) early
      → u32 (s.cfg.sk_loss_grace_s * 1000) ≤ sub32 (io.now_ms 0) (lost.now_ms 0)
      → (tick_fires early (stream_changed lost false s).0 ≡ 0)
        × ((tick io (after_ticks early (stream_changed lost false s).0)).2 ≡ true)
        × (tick_fires late (tick io (after_ticks early (stream_changed lost false s).0)).0 ≡ 0)
  outage-reported all due =
      let (quiet, w) = early_ticks _ _ early (stream_changed lost false s).0 all fallen in
      let (fire, done) = tick-due _ _ io _ due w in (quiet, fire, late_ticks late _ done)
