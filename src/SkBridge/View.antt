-- ===== src/SkBridge/View.antt =====
-- What a server that has taken every call in order holds, and what each function of the bridge does
-- to it.
use signalk_esp_os_8relay.Base.{
  ℕ, zero, suc, ◌-◌, ◌≡◌, refl, ◌∙◌, ap, arith, if◌then◌else◌, Bool, true, false, ◌&&◌, ◌==◌, ltb,
  leb, List, [], ◌∷◌, ◌++◌, Option, some,
}
use signalk_esp_os_8relay.DeviceConfig.{Config}
use signalk_esp_os_8relay.SkBridge.Text.{Tree, switches, controls, state, notification_json}
use signalk_esp_os_8relay.SkBridge.Publish.{
  SkPath, channel, alarm, Call, publish_number, publish_string, declare_meta, put_register,
  publish_json, Io, tree_on, publish_state, publish_notification, declare_names, publish_counters,
  publish_description, each_channel, each_tree,
}

-- A value at a path of the server.
pub data Value : Type 0 where
  number : ℕ → Value
  text json : List ℕ → Value

-- The value that a state is published with.
unfoldable pub shown : Bool → Option Value
shown on = some (number (if on then 1 else 0))

-- The value that the alarm of an input is published with.
unfoldable pub notice : Config → ℕ → Bool → Option Value
notice cfg ch active = some (json (notification_json (cfg.inputs (ch - 1)) active))

unfoldable pub same_tree : Tree → Tree → Bool
same_tree switches switches = true
same_tree switches controls = false
same_tree controls switches = false
same_tree controls controls = true

unfoldable pub same_bool : Bool → Bool → Bool
same_bool true true = true
same_bool true false = false
same_bool false true = false
same_bool false false = true

-- Whether two paths are that of one channel's state, or of one input's alarm. The other leaves are
-- not followed.
unfoldable pub is_state : Tree → Bool → ℕ → SkPath → Bool
unfolding same_tree same_bool
is_state t input ch (channel u input' ch' state) =
    (same_tree t u && same_bool input input') && ch == ch'
is_state t input ch (channel u input' ch' leaf) = false
is_state t input ch (alarm u ch') = false

unfoldable pub is_alarm : Tree → ℕ → SkPath → Bool
unfolding same_tree
is_alarm t ch (channel u input ch' leaf) = false
is_alarm t ch (alarm u ch') = same_tree t u && ch == ch'

-- What the server holds at the path that `mine` picks out, after one more call.
unfoldable pub take : (SkPath → Bool) → Call → Option Value → Option Value
take mine (publish_number p v) held = if mine p then some (number v) else held
take mine (publish_string p v) held = if mine p then some (text v) else held
take mine (publish_json p v) held = if mine p then some (json v) else held
take mine (declare_meta p v period) held = held
take mine (put_register p ch) held = held

-- After a list of calls.
unfoldable pub view : (SkPath → Bool) → List Call → Option Value → Option Value
unfolding take
view mine [] held = held
view mine (c ∷ calls) held = view mine calls (take mine c held)

pub view-append :
    (mine : SkPath → Bool) (xs ys : List Call) (held : Option Value)
    → view mine (xs ++ ys) held ≡ view mine ys (view mine xs held)
unfolding view
view-append mine [] ys held = refl
view-append mine (x ∷ xs) ys held = view-append mine xs ys (take mine x held)

pub view-when :
    (mine : SkPath → Bool) (b : Bool) (calls : List Call) (held : Option Value)
    → view mine (if b then calls else []) held ≡ (if b then view mine calls held else held)
unfolding view
view-when mine true calls held = refl
view-when mine false calls held = refl

-- A loop whose body writes only at channel `k`, if at all, leaves there what the round `k` wrote.
module _ (mine : SkPath → Bool) (f : ℕ → List Call) (hit : Bool) (k : ℕ) (new : Option Value)
    (one : (ch : ℕ) (held : Option Value)
      → view mine (f ch) held ≡ (if hit && k == ch then new else held)) where
  pub view-each_channel :
      (n : ℕ) (held : Option Value)
      → view mine (each_channel n f) held ≡ (if hit && ltb 0 k && leb k n then new else held)
  unfolding each_channel view
  view-each_channel zero held = ground arith
  view-each_channel (suc n) held = ground (
    arith,
    view-append mine (each_channel n f) (f (suc n)) held,
    view-each_channel n held,
    one (suc n) (view mine (each_channel n f) held),
  )

-- Of the two trees, only that of the path counts, and only if it is published.
module _ (mine : SkPath → Bool) (cfg : Config) (f : Tree → List Call) (t : Tree) (hit : Bool)
    (new : Option Value)
    (one : (u : Tree) (held : Option Value)
      → view mine (f u) held ≡ (if same_tree t u && hit then new else held)) where
  only_when :
      (b : Bool) (u : Tree) (held : Option Value)
      → view mine (if b then f u else []) held ≡ (if b && same_tree t u && hit then new else held)
  unfolding view
  only_when true u held = one u held
  only_when false u held = refl

  last_tree :
      (u : Tree) (held : Option Value)
      → (if tree_on cfg controls && same_tree u controls && hit
          then new
          else if tree_on cfg switches && same_tree u switches && hit
          then new
          else held)
        ≡ (if tree_on cfg u && hit then new else held)
  unfolding same_tree
  last_tree switches held = ground arith
  last_tree controls held = ground arith

  pub view-each_tree :
      (held : Option Value)
      → view mine (each_tree cfg f) held ≡ (if tree_on cfg t && hit then new else held)
  unfolding each_tree
  view-each_tree held =
      let a = only_when (tree_on cfg switches) switches held in
      let b =
        only_when (tree_on cfg controls) controls
          (view mine (if tree_on cfg switches then f switches else []) held) in
      view-append mine (if tree_on cfg switches then f switches else [])
        (if tree_on cfg controls then f controls else []) held
      ∙ (b
          ∙ (ap
                (λ (v : Option Value).
                  if tree_on cfg controls && same_tree t controls && hit then new else v)
                a
              ∙ last_tree t held))

regroup :
    (a b c d : Bool) (x y : Option Value)
    → (if (a && b) && c && d then x else y) ≡ (if a && (b && c && d) then x else y)
regroup a b c d x y = ground arith

-- The two loops, where the body writes the path of channel `k` of tree `t` only, and that if `live`.
module _ (mine : SkPath → Bool) (cfg : Config) (f : Tree → ℕ → List Call) (t : Tree) (live : Bool)
    (k : ℕ) (new : Option Value)
    (one : (u : Tree) (ch : ℕ) (held : Option Value)
      → view mine (f u ch) held ≡ (if (same_tree t u && live) && k == ch then new else held)) where
  pub view-each_tree_channel :
      (n : ℕ) (held : Option Value)
      → view mine (each_tree cfg (λ u. each_channel n (f u))) held
        ≡ (if tree_on cfg t && (live && ltb 0 k && leb k n) then new else held)
  view-each_tree_channel n held =
      view-each_tree mine cfg (λ u. each_channel n (f u)) t (live && ltb 0 k && leb k n) new
        (λ u v.
          view-each_channel mine (f u) (same_tree t u && live) k new (one u) n v
          ∙ regroup (same_tree t u) live (ltb 0 k) (leb k n) new v)
        held

-- The view of the state of channel `k` of a bank, call by call.
module _ (t : Tree) (input : Bool) (k : ℕ) where
  pub state-publish_description :
      (u : Tree) (input' : Bool) (ch : ℕ) (held : Option Value)
      → view (is_state t input k) (publish_description u input' ch) held ≡ held
  unfolding publish_description view is_state
  state-publish_description switches input' ch held = refl
  state-publish_description controls input' ch held = refl

  pub state-publish_counters :
      (io : Io) (u : Tree) (input' : Bool) (ch : ℕ) (held : Option Value)
      → view (is_state t input k) (publish_counters io u input' ch) held ≡ held
  unfolding publish_counters view is_state
  state-publish_counters io u input' ch held = refl

  pub state-publish_notification :
      (cfg : Config) (u : Tree) (ch : ℕ) (active : Bool) (held : Option Value)
      → view (is_state t input k) (publish_notification cfg u ch active) held ≡ held
  unfolding publish_notification view is_state
  state-publish_notification cfg u ch active held = refl

  pub state-declare_names :
      (cfg : Config) (u : Tree) (input' : Bool) (ch : ℕ) (held : Option Value)
      → view (is_state t input k) (declare_names cfg u input' ch) held ≡ held
  unfolding declare_names view is_state
  state-declare_names cfg switches input' ch held = refl
  state-declare_names cfg controls input' ch held = refl

  pub state-publish_state :
      (u : Tree) (input' : Bool) (ch : ℕ) (on : Bool) (held : Option Value)
      → view (is_state t input k) (publish_state u input' ch on) held
        ≡ (if (same_tree t u && same_bool input input') && k == ch then shown on else held)
  unfolding publish_state view is_state shown
  state-publish_state u input' ch on held = refl

-- The view of the alarm of input `k`, call by call.
module _ (t : Tree) (k : ℕ) where
  pub alarm-publish_description :
      (u : Tree) (input : Bool) (ch : ℕ) (held : Option Value)
      → view (is_alarm t k) (publish_description u input ch) held ≡ held
  unfolding publish_description view is_alarm
  alarm-publish_description switches input ch held = refl
  alarm-publish_description controls input ch held = refl

  pub alarm-publish_counters :
      (io : Io) (u : Tree) (input : Bool) (ch : ℕ) (held : Option Value)
      → view (is_alarm t k) (publish_counters io u input ch) held ≡ held
  unfolding publish_counters view is_alarm
  alarm-publish_counters io u input ch held = refl

  pub alarm-publish_state :
      (u : Tree) (input : Bool) (ch : ℕ) (on : Bool) (held : Option Value)
      → view (is_alarm t k) (publish_state u input ch on) held ≡ held
  unfolding publish_state view is_alarm
  alarm-publish_state u input ch on held = refl

  pub alarm-publish_notification :
      (cfg : Config) (u : Tree) (ch : ℕ) (active : Bool) (held : Option Value)
      → view (is_alarm t k) (publish_notification cfg u ch active) held
        ≡ (if same_tree t u && k == ch then notice cfg ch active else held)
  unfolding publish_notification view is_alarm notice
  alarm-publish_notification cfg u ch active held = refl
