-- ===== src/Relay/Notify.antt =====
-- What the rest of the firmware sees of relay_ctrl.c: the listeners' calls and the reported mask.
use signalk_esp_os_8relay.Base.{
  ℕ, zero, suc, ◌+◌, ◌-◌, ltb, leb, if◌then◌else◌, Bool, false, ◌&&◌, List, [], ◌∷◌, ◌++◌, map,
  length, bit_xor,
}
use signalk_esp_os_8relay.Base.Bits.{test}
use signalk_esp_os_8relay.Board.{channels, Status, ok, fail, no_mem}
use signalk_esp_os_8relay.Relay.State.{
  Ctrl, Source, Notice, max_listeners, is_momentary, wired_nc_mask,
}

-- The calls for one channel, in the listeners' order.
unfoldable pub notices_of : List ℕ → ℕ → ℕ → Source → List Notice
notices_of listeners after i src =
    map (λ l. record { listener = l; channel = i + 1; on = test after i; src = src; mask = after })
      listeners

unfoldable pub notify_loop : List ℕ → ℕ → ℕ → Source → ℕ → List Notice
notify_loop listeners changed after src zero = []
notify_loop listeners changed after src (suc n) =
    notify_loop listeners changed after src n
    ++ (if test changed n then notices_of listeners after n src else [])

-- notify_bits
unfoldable pub notify_bits : List ℕ → ℕ → ℕ → Source → List Notice
unfolding notify_loop
notify_bits listeners changed after src = notify_loop listeners changed after src channels

-- notify
unfoldable pub notify : List ℕ → ℕ → ℕ → Source → List Notice
unfolding notify_bits
notify listeners before after src = notify_bits listeners (bit_xor before after) after src

-- `channel >= 1 && channel <= BOARD_CHANNELS`
unfoldable pub is_channel : ℕ → Bool
is_channel channel = leb 1 channel && leb channel channels

module _ {World : Type 0} where
  -- `mask ^ wnc` of the present settings
  unfoldable pub reported : Ctrl World → ℕ → ℕ
  reported s mask = bit_xor mask (wired_nc_mask s.cfg)

  -- relay_ctrl_get_mask
  unfoldable pub get_mask : Ctrl World → ℕ
  unfolding reported
  get_mask s = reported s s.mask

  -- relay_ctrl_get
  unfoldable pub get : Ctrl World → ℕ → Bool
  unfolding get_mask is_channel
  get s channel = is_channel channel && test (get_mask s) (channel - 1)

  -- relay_ctrl_is_momentary
  unfoldable pub reports_momentary : Ctrl World → ℕ → Bool
  unfolding is_channel
  reports_momentary s channel =
      if is_channel channel then is_momentary s.cfg (channel - 1) else false

  -- relay_ctrl_add_listener: the first free of MAX_LISTENERS slots. None is ever freed, so the slots
  -- in use are a list.
  unfoldable pub add_listener : Ctrl World → ℕ → Ctrl World × Status
  add_listener s cb =
      if ltb (length s.listeners) max_listeners
      then (record s { listeners = s.listeners ++ (cb ∷ []) }, ok)
      else (s, fail no_mem)
