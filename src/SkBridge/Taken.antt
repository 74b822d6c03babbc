-- ===== src/SkBridge/Taken.antt =====
-- What taking over new settings changes.
use signalk_esp_os_8relay.Base.{
  ℕ, zero, suc, ◌≡◌, ◌<◌, refl, ◌∙◌, ap, arith, true, ◌==◌, Bool-cases, inl, inr,
}
use signalk_esp_os_8relay.DeviceConfig.{Config, RelayCfg, InputCfg}
use signalk_esp_os_8relay.SkBridge.Publish.{Io}
use signalk_esp_os_8relay.SkBridge.State.{
  Bridge, set_at, with_names, with_alarm, update_channels, update_periods, update_config,
}
use signalk_esp_os_8relay.SkBridge.Kept.{SameSetup, update_config-SameSetup}

-- What one round of the loop leaves in the settings of channel `i`.
pub record Taken (new cfg : Config) (i : ℕ) : Type 0 where
  pub relay_name : (cfg.relays i).name ≡ (new.relays i).name
  pub input_name : (cfg.inputs i).name ≡ (new.inputs i).name
  pub input_alarm : (cfg.inputs i).alarm ≡ (new.inputs i).alarm
  pub input_message : (cfg.inputs i).alarm_msg ≡ (new.inputs i).alarm_msg

round-Taken : (new cfg : Config) (n : ℕ) → Taken new (with_alarm new (with_names new cfg n) n) n
unfolding with_alarm with_names set_at
round-Taken new cfg n =
    let same : (n == n) ≡ true = ground arith in
    record {
      relay_name = simp same refl;
      input_name = simp same refl;
      input_alarm = simp same refl;
      input_message = simp same refl;
    }

update_channels-Taken :
    (io : Io) (new : Config) (n : ℕ) (s : Bridge) (i : ℕ)
    → i < n
    → Taken new (update_channels io new n s).0.cfg i
unfolding update_channels with_alarm with_names set_at
update_channels-Taken io new zero s i h = absurd (omega arith)
update_channels-Taken io new (suc n) s i h = elim (Bool-cases (n == i)) [
  | inl e ↦
      let at : n ≡ i = ground (arith, e) in
      rw (← at) (round-Taken new (update_channels io new n s).0.cfg n)
  | inr e ↦
      let old = update_channels-Taken io new n s i (ground (arith, e, h)) in
      record {
        relay_name = simp e old.relay_name;
        input_name = simp e old.input_name;
        input_alarm = simp e old.input_alarm;
        input_message = simp e old.input_message;
      }
]

update_periods-taken :
    (new : Config) (s : Bridge)
    → ((update_periods new s).0.cfg.relays ≡ s.cfg.relays)
      × ((update_periods new s).0.cfg.inputs ≡ s.cfg.inputs)
      × ((update_periods new s).0.cfg.sk_loss_grace_s ≡ new.sk_loss_grace_s)
      × ((update_periods new s).0.cfg.sk_republish_s ≡ new.sk_republish_s)
unfolding update_periods
update_periods-taken new s = ground arith

update_periods-Taken :
    (new : Config) (s : Bridge) (i : ℕ)
    → Taken new s.cfg i
    → Taken new (update_periods new s).0.cfg i
update_periods-Taken new s i old =
    let (relays, inputs, grace, republish) = update_periods-taken new s in
    record {
      relay_name = ap (λ (f : ℕ → RelayCfg). (f i).name) relays ∙ old.relay_name;
      input_name = ap (λ (f : ℕ → InputCfg). (f i).name) inputs ∙ old.input_name;
      input_alarm = ap (λ (f : ℕ → InputCfg). (f i).alarm) inputs ∙ old.input_alarm;
      input_message = ap (λ (f : ℕ → InputCfg). (f i).alarm_msg) inputs ∙ old.input_message;
    }

-- Saved settings are taken over for the names, alarms and messages of all eight channels and for
-- the two periods; what a restart is needed for stays as it was. The bridge has been initialised.
pub update_config-Taken :
    (io : Io) (new : Config) (s : Bridge) (i : ℕ)
    → s.ready ≡ true
    → i < 8
    → Taken new (update_config io new s).0.cfg i
      × ((update_config io new s).0.cfg.sk_loss_grace_s ≡ new.sk_loss_grace_s)
      × ((update_config io new s).0.cfg.sk_republish_s ≡ new.sk_republish_s)
      × SameSetup s (update_config io new s).0
unfolding update_config
update_config-Taken io new s i ready h =
    let s1 = (update_channels io new 8 s).0 in
    let same : (update_config io new s).0 ≡ (update_periods new s1).0 = simp ready refl in
    let (relays, inputs, grace, republish) = update_periods-taken new s1 in
    (
      rw same (update_periods-Taken new s1 i (update_channels-Taken io new 8 s i h)),
      rw same grace,
      rw same republish,
      update_config-SameSetup io new s,
    )
