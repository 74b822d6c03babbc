-- ===== src/Button.antt =====
-- components/button: the BOOT button's state machine, button_logic.c. The pins and the polling task
-- in button_hw.c are not modelled; a poll is a call of `update` with the level and the time.
use signalk_esp_os_8relay.Base.{
  ℕ, suc, if◌then◌else◌, Bool, true, false, not, ◌&&◌, ltb, leb, xor, List, [], ◌∷◌,
}
use signalk_esp_os_8relay.Base.Words.{sub32}
pub mod Debounce
pub mod Press

pub data Feedback : Type 0 where
  no_feedback : Feedback
  show_portal : Feedback
  show_reset : Feedback

pub data Action : Type 0 where
  no_action : Action
  open_portal : Action
  factory_reset : Action

abbrev pub portal_ms : ℕ
portal_ms = 5000

abbrev pub reset_ms : ℕ
reset_ms = 15000

abbrev pub debounce_ticks : ℕ
debounce_ticks = 3

-- button_state_t
pub record Button : Type 0 where
  pub ignoring : Bool
  pub raw : Bool
  pub same_count : ℕ
  pub debounced : Bool
  pub was_pressed : Bool
  pub press_start_ms : ℕ

-- The first `if` of debounce().
unfoldable pub sample : Button → Bool → Button
sample st raw_pressed =
    if xor raw_pressed st.raw then record st { raw = raw_pressed; same_count = 0 } else st

-- The second.
unfoldable pub count_tick : Button → Button
count_tick st =
    if ltb st.same_count debounce_ticks
    then (let n = suc st.same_count in
        record st {
          same_count = n;
          debounced = if leb debounce_ticks n then st.raw else st.debounced;
        })
    else st

unfoldable pub debounce : Button → Bool → Button
unfolding sample count_tick
debounce st raw_pressed = count_tick (sample st raw_pressed)

unfoldable pub init : Bool → Button
init pressed_now = record {
  ignoring = pressed_now;
  raw = pressed_now;
  same_count = debounce_ticks;
  debounced = pressed_now;
  was_pressed = pressed_now;
  press_start_ms = 0;
}

unfoldable pub feedback_after : ℕ → Feedback
feedback_after held_ms =
    if leb reset_ms held_ms
    then show_reset
    else if leb portal_ms held_ms
    then show_portal
    else no_feedback

unfoldable pub action_after : ℕ → Action
action_after held_ms =
    if leb reset_ms held_ms
    then factory_reset
    else if leb portal_ms held_ms
    then open_portal
    else no_action

-- button_logic_update() after the call of debounce().
unfoldable pub judge : Button → ℕ → Button × Action × Feedback
unfolding feedback_after action_after
judge st now_ms =
    let pressed = st.debounced in
    if st.ignoring
    then (record st { ignoring = pressed; was_pressed = pressed }, no_action, no_feedback)
    else (let start = if pressed && not st.was_pressed then now_ms else st.press_start_ms in
        let held_ms = sub32 now_ms start in
        (
          record st { press_start_ms = start; was_pressed = pressed },
          if not pressed && st.was_pressed then action_after held_ms else no_action,
          if pressed then feedback_after held_ms else no_feedback,
        ))

-- button_logic_update
unfoldable pub update : Button → Bool → ℕ → Button × Action × Feedback
unfolding judge debounce
update st raw_pressed now_ms = judge (debounce st raw_pressed) now_ms
