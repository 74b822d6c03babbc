-- ===== src/Relay/Runs.antt =====
-- A board in use: from a boot on, commands, ticks, the loss of SignalK, new settings and changes of the
-- world outside come in any order.
use signalk_esp_os_8relay.Base.{ℕ, Bool, false, ◌≡◌, inl, inr, refl, sym, Bool-cases, ltb, length}
use mathlib.Core.Path.{subst}
use signalk_esp_os_8relay.Board.{ok}
use signalk_esp_os_8relay.DeviceConfig.{Config}
use signalk_esp_os_8relay.DeviceConfig.Interlock.{derive_interlocks, derive_interlocks-WellPaired}
use signalk_esp_os_8relay.Relay.State.{Hw, Ctrl, Source}
use signalk_esp_os_8relay.Relay.Notify.{add_listener}
use signalk_esp_os_8relay.Relay.Switch.{Request, set_or_toggle, sk_lost}
use signalk_esp_os_8relay.Relay.Update.{update_config}
use signalk_esp_os_8relay.Relay.Tick.{tick}
use signalk_esp_os_8relay.Relay.Boot.{init}
use signalk_esp_os_8relay.Relay.Exclusive.Switch.{
  Interlocked, set_or_toggle-Interlocked, sk_lost-Interlocked,
}
use signalk_esp_os_8relay.Relay.Exclusive.Tick.{tick-Interlocked}
use signalk_esp_os_8relay.Relay.Exclusive.Update.{NoneWaitTogether, update_config-Interlocked}
use signalk_esp_os_8relay.Relay.Timed.{Timed}
use signalk_esp_os_8relay.Relay.Timed.Switch.{set_or_toggle-Timed, sk_lost-Timed}
use signalk_esp_os_8relay.Relay.Timed.Tick.{tick-Timed}
use signalk_esp_os_8relay.Relay.Timed.Update.{update_config-Timed}
use signalk_esp_os_8relay.Relay.Restore.{init-Interlocked, init-Timed}

-- One call of relay_ctrl.h, or a change outside of the controller. `reload` is the settings read from
-- the store by device_config_load() and taken over.
pub data Step {World : Type 0} (hw : Hw World) : Ctrl World → Ctrl World → Type 0 where
  command :
      (s : Ctrl World) (channel : ℕ) (request : Request) (src : Source)
      → Step hw s (set_or_toggle hw s channel request src).0
  lost : (s : Ctrl World) → Step hw s (sk_lost hw s).0
  time : (s : Ctrl World) → Step hw s (tick hw s).0
  listen : (s : Ctrl World) (cb : ℕ) → Step hw s (add_listener s cb).0
  outside : (s : Ctrl World) (world : World) → Step hw s (record s { world = world })
  reload :
      (s : Ctrl World) (stored : Config)
      → NoneWaitTogether (derive_interlocks stored) s.pending_on
      → (update_config hw (derive_interlocks stored) s).0.i2c_fault ≡ false
      → Step hw s (update_config hw (derive_interlocks stored) s).0

pub data Run {World : Type 0} (hw : Hw World) (s : Ctrl World) : Ctrl World → Type 0 where
  start : Run hw s s
  next : {t u : Ctrl World} → Run hw s t → Step hw t u → Run hw s u

module _ {World : Type 0} (hw : Hw World) where
  add_listener-rest :
      (s : Ctrl World) (cb : ℕ)
      → (add_listener s cb).0 ≡ record s { listeners = (add_listener s cb).0.listeners }
  unfolding add_listener
  add_listener-rest s cb = elim (Bool-cases (ltb (length s.listeners) 4)) [
    | inl e ↦ simp e refl
    | inr e ↦ simp e refl
  ]

  Step-Interlocked : {s t : Ctrl World} → Step hw s t → Interlocked s → Interlocked t
  Step-Interlocked (command s channel request src) inv =
      set_or_toggle-Interlocked hw inv channel request src
  Step-Interlocked (lost s) inv = sk_lost-Interlocked hw inv
  Step-Interlocked (time s) inv = tick-Interlocked hw inv
  Step-Interlocked (listen s cb) inv =
      subst Interlocked (sym (add_listener-rest s cb))
        (record { pairs = inv.pairs; exclusive = inv.exclusive })
  Step-Interlocked (outside s world) inv = record { pairs = inv.pairs; exclusive = inv.exclusive }
  Step-Interlocked (reload s stored waits good) inv =
      elim (update_config-Interlocked hw (derive_interlocks stored) inv
        (derive_interlocks-WellPaired stored) waits) [
          | inl kept ↦ kept
          | inr (bad, same) ↦ cc (bad, good)
        ]

  Step-Timed : {s t : Ctrl World} → Step hw s t → Timed s → Timed t
  Step-Timed (command s channel request src) inv = set_or_toggle-Timed hw inv channel request src
  Step-Timed (lost s) inv = sk_lost-Timed hw inv
  Step-Timed (time s) inv = tick-Timed hw inv
  Step-Timed (listen s cb) inv =
      subst Timed (sym (add_listener-rest s cb))
        (record { pulses = inv.pulses; limits = inv.limits })
  Step-Timed (outside s world) inv = record { pulses = inv.pulses; limits = inv.limits }
  Step-Timed (reload s stored waits good) inv =
      update_config-Timed hw (derive_interlocks stored) inv

  Run-Interlocked : {s t : Ctrl World} → Interlocked s → Run hw s t → Interlocked t
  Run-Interlocked inv start = inv
  Run-Interlocked inv (next run step) = Step-Interlocked step (Run-Interlocked inv run)

  Run-Timed : {s t : Ctrl World} → Timed s → Run hw s t → Timed t
  Run-Timed inv start = inv
  Run-Timed inv (next run step) = Step-Timed step (Run-Timed inv run)

  module _ (stored : Config) (s0 : Ctrl World) (lock : Bool) {s : Ctrl World} where
    -- On a board that has booted with settings loaded from the store, whatever the store and the
    -- chip held, and has then seen any commands, ticks, losses of SignalK, new listeners, changes
    -- of the clock and the hardware, and new settings in any order, the interlock is intact: every
    -- effective partner is another relay of the board that names this one back, of two partners at
    -- most one coil is on and at most one waits, and no relay that waits is on. Each change of the
    -- settings is assumed to find no two relays waiting that it pairs, and to end without a fault
    -- of the expander.
    pub boot-Run-Interlocked :
        (init hw lock (derive_interlocks stored) s0).1 ≡ ok
        → Run hw (init hw lock (derive_interlocks stored) s0).0 s
        → Interlocked s
    boot-Run-Interlocked good run =
        Run-Interlocked
          (init-Interlocked hw (derive_interlocks stored) (derive_interlocks-WellPaired stored) s0
            lock good)
          run

    -- On a board that has booted with settings loaded from the store, whatever the store and the
    -- chip held, and has then seen any commands, ticks, losses of SignalK, new listeners, changes
    -- of the clock and the hardware, and new settings in any order, the timers are kept: a
    -- momentary relay that is on has a running pulse, and a relay with a maximum on-time that is on
    -- has that timer running. Each change of the settings is assumed to find no two relays waiting
    -- that it pairs, and to end without a fault of the expander.
    pub boot-Run-Timed :
        (init hw lock (derive_interlocks stored) s0).1 ≡ ok
        → Run hw (init hw lock (derive_interlocks stored) s0).0 s
        → Timed s
    boot-Run-Timed good run =
        Run-Timed
          (init-Timed hw (derive_interlocks stored) (derive_interlocks-WellPaired stored) s0 lock
            good)
          run
