-- ===== src/Relay/State.antt =====
-- The state of relay_ctrl.c (`static struct { … } s`), what it takes from outside, and its helpers
-- on masks and settings. Each public function runs under the lock from its first read of the state
-- to its last write, so a call is one step; the lock itself is left out.
use signalk_esp_os_8relay.Base.{
  ℕ, zero, suc, ◌-◌, ◌*◌, ◌^◌, ◌==◌, ltb, if◌then◌else◌, Bool, true, false, not, ◌&&◌, List, bit_or,
}
use signalk_esp_os_8relay.Base.Bits.{test, bit, not8, clear, meets}
use signalk_esp_os_8relay.Base.Words.{u8, u32, sub32}
use signalk_esp_os_8relay.Base.Masks.{mask_of}
use signalk_esp_os_8relay.Board.{channels, relay_active_high, Fault, Status, Reply}
use signalk_esp_os_8relay.DeviceConfig.{
  latching, momentary, default_safe, hold, Config, effective_failsafe,
}
use signalk_esp_os_8relay.Tca9554.{Bus}

-- relay_source_t
pub data Source : Type 0 where
  sk n2k input pulse_end failsafe web max_on interlock schedule : Source

-- relay_state_store_t
pub record Store (World : Type 0) : Type 0 where
  pub load : World → World × Reply ℕ
  pub save : World → ℕ → World × Status

-- relay_ctrl_hw_t. Two readings of the clock with nothing done in between are the same.
pub record Hw (World : Type 0) : Type 0 where
  pub expander : Bus World
  pub store : Store World
  pub now_ms : World → ℕ

-- What espos_health_report() was told: HEALTH_KEY, then HEALTH_KEY_INTERLOCK with the relays that
-- the message lists.
pub data Report : Type 0 where
  expander_alarm : Fault → Report
  expander_normal : Report
  interlock_normal : Report
  interlock_warn : ℕ → Report

-- One call of a listener, which is known by a number.
pub record Notice : Type 0 where
  pub listener : ℕ
  pub channel : ℕ
  pub on : Bool
  pub src : Source
  pub mask : ℕ

-- `s`. The reports are the newest first.
pub record Ctrl (World : Type 0) : Type 0 where
  pub world : World
  pub cfg : Config
  pub mask : ℕ
  pub pulsing : ℕ
  pub pulse_end : ℕ → ℕ
  pub limited : ℕ
  pub max_on_end : ℕ → ℕ
  pub pending_on : ℕ
  pub pending_on_end : ℕ → ℕ
  pub pending_on_src : ℕ → Source
  pub save_pending : Bool
  pub last_save_ms : ℕ
  pub i2c_fault : Bool
  pub listeners : List ℕ
  pub reports : List Report

-- MAX_LISTENERS
abbrev pub max_listeners : ℕ
max_listeners = 4

-- RELAY_CTRL_SAVE_DELAY_MS
abbrev pub save_delay_ms : ℕ
save_delay_ms = 5000

-- `a[i] = v`
unfoldable pub update {ℓ} : {A : Type ℓ} → (ℕ → A) → ℕ → A → ℕ → A
update a i v j = if i == j then v else a j

unfoldable pub to_reg : ℕ → ℕ
to_reg mask = if relay_active_high then mask else not8 mask

unfoldable pub from_reg : ℕ → ℕ
from_reg reg = if relay_active_high then reg else not8 reg

unfoldable pub is_momentary : Config → ℕ → Bool
is_momentary cfg i = elim (cfg.relays i).mode [ momentary ↦ true | latching ↦ false ]

unfoldable pub is_hold : Config → ℕ → Bool
is_hold cfg i = elim (effective_failsafe (cfg.relays i)) [ hold ↦ true | default_safe ↦ false ]

unfoldable pub hold_mask : Config → ℕ
unfolding is_hold
hold_mask cfg = mask_of channels (is_hold cfg)

unfoldable pub wired_nc_mask : Config → ℕ
wired_nc_mask cfg = mask_of channels (λ i. (cfg.relays i).wired_nc)

unfoldable pub max_on_ms : Config → ℕ → ℕ
unfolding is_momentary
max_on_ms cfg i = if is_momentary cfg i then 0 else u32 ((cfg.relays i).max_on_s * 1000)

unfoldable pub interlock_partner_bit : Config → ℕ → ℕ
interlock_partner_bit cfg i =
    let p = (cfg.relays i).interlock in if p == 0 then 0 else u8 (bit (p - 1))

-- The test of the loop of clear_interlock_conflicts().
unfoldable pub in_conflict : Config → ℕ → ℕ → Bool
unfolding interlock_partner_bit
in_conflict cfg mask i =
    let partner = interlock_partner_bit cfg i in
    not (partner == 0) && (test mask i && meets mask partner)

-- clear_interlock_conflicts() over the first `n` channels: the mask, and what is OR-ed into
-- `*conflict`.
unfoldable pub clear_conflicts_loop : Config → ℕ → ℕ → ℕ × ℕ
clear_conflicts_loop cfg mask zero = (mask, 0)
clear_conflicts_loop cfg mask (suc n) =
    let (out, conflict) = clear_conflicts_loop cfg mask n in
    if in_conflict cfg mask n then (clear out (bit n), bit_or conflict (bit n)) else (out, conflict)

unfoldable pub clear_interlock_conflicts : Config → ℕ → ℕ × ℕ
unfolding clear_conflicts_loop
clear_interlock_conflicts cfg mask = clear_conflicts_loop cfg mask channels

unfoldable pub deadline_passed : ℕ → ℕ → Bool
deadline_passed now deadline = ltb (sub32 now deadline) (2 ^ 31)

unfoldable pub interlock_report : ℕ → Report
interlock_report conflict = if conflict == 0 then interlock_normal else interlock_warn conflict

-- relay_ctrl_source_chirps
unfoldable pub source_chirps : Source → Bool
source_chirps sk = true
source_chirps n2k = true
source_chirps web = true
source_chirps input = true
source_chirps pulse_end = false
source_chirps failsafe = false
source_chirps max_on = false
source_chirps interlock = false
source_chirps schedule = false
