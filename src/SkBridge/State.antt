-- ===== src/SkBridge/State.antt =====
-- The state of sk_bridge.c and its public functions. Each gives the new state and the calls it made,
-- in order.
use signalk_esp_os_8relay.Base.{
  ℕ, zero, suc, ◌+◌, ◌-◌, ◌*◌, if◌then◌else◌, Bool, true, false, not, ◌&&◌, ◌||◌, ◌==◌, ltb, leb,
  List, [], ◌∷◌, ◌++◌, same_text,
}
use signalk_esp_os_8relay.Base.Bits.{test}
use signalk_esp_os_8relay.Base.Words.{u32, sub32}
use signalk_esp_os_8relay.Board.{channels, Status, ok, fail, no_mem}
use signalk_esp_os_8relay.DeviceConfig.{Config, InputCfg}
use signalk_esp_os_8relay.Alerts.State.{same_level}
use signalk_esp_os_8relay.SkBridge.Text.{Tree, switches, controls, state}
use signalk_esp_os_8relay.SkBridge.Publish.{
  channel, Call, put_register, Io, tree_on, inputs_on, alarm_configured, is_set, publish_state,
  publish_notification, republish_ms, declare_names, publish_description, each_channel, each_tree,
  publish_states, publish_all,
}

-- The static state. `ready` says that the lock is there.
pub record Bridge : Type 0 where
  pub ready : Bool
  pub cfg : Config
  pub started : Bool
  pub connected_once : Bool
  pub down : Bool
  pub lost_fired : Bool
  pub down_since : ℕ
  pub republished_at : ℕ

-- sk_bridge_init; `created` says whether the mutex could be made.
unfoldable pub init : Bool → Bridge → Bridge × Status
init created s =
    if s.ready
    then (s, ok)
    else if created
    then (record s { ready = true }, ok)
    else (s, fail no_mem)

-- The metadata of every channel of a tree.
unfoldable pub declare_tree : Config → Tree → List Call
declare_tree cfg t = each_channel channels (λ ch.
    declare_names cfg t false ch ++ (if inputs_on cfg then declare_names cfg t true ch else []))

-- `err == ESP_OK`
unfoldable pub is_ok : Status → Bool
is_ok ok = true
is_ok (fail e) = false

-- The loop over the channels that registers the handler; `answer` is what put_register() returns.
unfoldable pub register_channels :
    (Tree → ℕ → Status) → Tree → ℕ → Status × List Call → Status × List Call
unfolding is_ok
register_channels answer t zero before = before
register_channels answer t (suc n) before =
    let (err, calls) = register_channels answer t n before in
    if is_ok err
    then (answer t (suc n), calls ++ (put_register (channel t false (suc n) state) (suc n) ∷ []))
    else (err, calls)

-- The two loops that register the handlers.
unfoldable pub register_all : (Tree → ℕ → Status) → Config → Status × List Call
register_all answer cfg =
    let first_tree =
      if tree_on cfg switches
      then register_channels answer switches channels (ok, [])
      else (ok, []) in
    if tree_on cfg controls
    then register_channels answer controls channels first_tree
    else first_tree

-- sk_bridge_start() after sk_bridge_init(), whose status comes last.
unfoldable pub start_after :
    (Tree → ℕ → Status) → Io → Config → Bridge → Status → Bridge × List Call × Status
start_after answer io cfg s (fail e) = (s, [], fail e)
start_after answer io cfg s ok =
    let (err, registered) = register_all answer cfg in
    (
      record s { cfg = cfg; republished_at = io.now_ms 0; started = true },
      each_tree cfg (declare_tree cfg) ++ (publish_all cfg io ++ registered),
      err,
    )

-- sk_bridge_start
unfoldable pub start :
    Bool → (Tree → ℕ → Status) → Io → Config → Bridge → Bridge × List Call × Status
unfolding start_after
start created answer io cfg s =
    let (s1, status) = init created s in start_after answer io cfg s1 status

-- `f[i] = v`
unfoldable pub set_at {ℓ} : {A : Type ℓ} → (ℕ → A) → ℕ → A → ℕ → A
set_at f i v j = if i == j then v else f j

-- The settings with the names of channel `i + 1` taken over, and then its alarm.
unfoldable pub with_names : Config → Config → ℕ → Config
unfolding set_at
with_names new cfg i = record cfg {
  relays = set_at cfg.relays i (record (cfg.relays i) { name = (new.relays i).name });
  inputs = set_at cfg.inputs i (record (cfg.inputs i) { name = (new.inputs i).name });
}

unfoldable pub with_alarm : Config → Config → ℕ → Config
unfolding set_at
with_alarm new cfg i = record cfg {
  inputs = set_at cfg.inputs i (record (cfg.inputs i) {
    alarm = (new.inputs i).alarm;
    alarm_msg = (new.inputs i).alarm_msg;
  });
}

-- `alarm_setting_changed`
unfoldable pub alarm_changed : InputCfg → InputCfg → Bool
unfolding same_level same_text
alarm_changed old new =
    not (same_level old.alarm new.alarm) || not (same_text old.alarm_msg new.alarm_msg)

-- The names that one round of the loop of sk_bridge_update_config() declares, under the settings
-- with the new names.
unfoldable pub declare_renamed : Config → Config → ℕ → List Call
declare_renamed new cfg i =
    let named = with_names new cfg i in
    let relay_renamed = not (same_text (cfg.relays i).name (new.relays i).name) in
    let input_renamed = not (same_text (cfg.inputs i).name (new.inputs i).name) in
    each_tree named (λ t.
      (if relay_renamed then declare_names named t false (i + 1) else [])
      ++ (if input_renamed && inputs_on named then declare_names named t true (i + 1) else []))

-- The notifications that the round publishes.
unfoldable pub renotify : Io → Config → Bridge → ℕ → List Call
renotify io new s i =
    let cfg = with_alarm new (with_names new s.cfg i) i in
    let old_configured = inputs_on s.cfg && is_set (s.cfg.inputs i).alarm in
    let new_configured = alarm_configured cfg (i + 1) in
    if alarm_changed (s.cfg.inputs i) (new.inputs i)
      && (old_configured || new_configured)
      && s.started
      && inputs_on cfg
      && io.inputs_ready i
      && test (io.input_mask i) i
    then each_tree cfg (λ t. publish_notification cfg t (i + 1) new_configured)
    else []

-- The loop of sk_bridge_update_config(), for channels 1 to `n`.
unfoldable pub update_channels : Io → Config → ℕ → Bridge → Bridge × List Call
update_channels io new zero s = (s, [])
update_channels io new (suc i) s =
    let (s1, calls) = update_channels io new i s in
    (
      record s1 { cfg = with_alarm new (with_names new s1.cfg i) i },
      calls ++ (declare_renamed new s1.cfg i ++ renotify io new s1 i),
    )

-- The rest of sk_bridge_update_config(): the grace period and the republishing.
unfoldable pub update_periods : Config → Bridge → Bridge × List Call
update_periods new s =
    let s1 = record s { cfg = record s.cfg { sk_loss_grace_s = new.sk_loss_grace_s } } in
    let cfg = record s1.cfg { sk_republish_s = new.sk_republish_s } in
    if s.cfg.sk_republish_s == new.sk_republish_s
    then (s1, [])
    else (record s1 { cfg = cfg }, if s.started then each_tree cfg (declare_tree cfg) else [])

-- sk_bridge_update_config
unfoldable pub update_config : Io → Config → Bridge → Bridge × List Call
update_config io new s =
    if not s.ready
    then (s, [])
    else let (s1, calls) = update_channels io new channels s in
      let (s2, rest) = update_periods new s1 in (s2, calls ++ rest)

-- sk_bridge_relay_changed
unfoldable pub relay_changed : Io → ℕ → Bridge → Bridge × List Call
relay_changed io ch s = if not s.ready || ltb ch 1 || ltb channels ch then (s, []) else (
  s,
  if s.started
      then each_tree s.cfg (λ t. publish_state t false ch (test io.relay_mask (ch - 1)))
      else [],
)

-- sk_bridge_input_changed
unfoldable pub input_changed : ℕ → Bool → Bridge → Bridge × List Call
input_changed ch on s = if not s.ready then (s, []) else (
  s,
  (if s.started && inputs_on s.cfg
        then each_tree s.cfg (λ t. publish_description t true ch ++ publish_state t true ch on)
        else [])
      ++ (if s.started && alarm_configured s.cfg ch
          then each_tree s.cfg (λ t. publish_notification s.cfg t ch on)
          else []),
)

-- sk_bridge_stream_changed
unfoldable pub stream_changed : Io → Bool → Bridge → Bridge × List Call
stream_changed io connected s =
    if not s.ready
    then (s, [])
    else if connected
    then (
      record s {
        connected_once = true;
        down = false;
        republished_at = if s.started then io.now_ms 0 else s.republished_at;
      },
      if s.started then publish_all s.cfg io else [],
    )
    else if s.connected_once && not s.down
    then (record s { down = true; lost_fired = false; down_since = io.now_ms 0 }, [])
    else (s, [])

-- `fire` of sk_bridge_tick().
unfoldable pub loss_due : Io → Bridge → Bool
loss_due io s =
    s.down
    && not s.lost_fired
    && (s.cfg.publish_switches_tree || s.cfg.publish_controls_tree)
    && leb (u32 (s.cfg.sk_loss_grace_s * 1000)) (sub32 (io.now_ms 0) s.down_since)

-- The test of sk_bridge_tick() before it republishes.
unfoldable pub republish_due : Io → Bridge → Bool
unfolding republish_ms
republish_due io s =
    s.started
    && s.connected_once
    && not s.down
    && not (republish_ms s.cfg == 0)
    && leb (republish_ms s.cfg) (sub32 (io.now_ms 1) s.republished_at)

-- sk_bridge_tick: the last part of the result says whether sk_lost() is called.
unfoldable pub tick : Io → Bridge → Bridge × List Call × Bool
tick io s =
    if not s.ready
    then (s, [], false)
    else let fire = loss_due io s in
      let s1 = record s { lost_fired = s.lost_fired || fire } in
      if republish_due io s
      then (record s1 { republished_at = io.now_ms 2 }, publish_states s.cfg io, fire)
      else (s1, [], fire)
