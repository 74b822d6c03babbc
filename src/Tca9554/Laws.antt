-- ===== src/Tca9554/Laws.antt =====
-- What the driver has confirmed when it returns ESP_OK. `registers` is what the chip holds: a read
-- that succeeds returns it and changes nothing (the TCA9554 datasheet).
use signalk_esp_os_8relay.Base.{ℕ, ◌≡◌, ◌≢◌, ◌⊎◌, inl, inr, refl, arith}
use signalk_esp_os_8relay.Board.{Fault, Reply, ok, got, failed}
use signalk_esp_os_8relay.Tca9554.{
  Bus, reg_output, reg_config, read_back, write_outputs, init_outputs,
}

pub Reply-cases :
    {A : Type 0} (r : Reply A) → ((a : A) × (r ≡ got a)) ⊎ ((f : Fault) × (r ≡ failed f))
Reply-cases (got a) = inl (a, refl)
Reply-cases (failed f) = inr (f, refl)

module _ {World : Type 0} (bus : Bus World) (registers : World → ℕ → ℕ) where
  -- The chip as its datasheet has it: reading is faithful and passive, and a write that the chip
  -- acknowledged leaves the other registers alone.
  pub record Chip : Type 0 where
    pub read_faithful : (w : World) (r v : ℕ) → (bus.read_reg w r).1 ≡ got v → registers w r ≡ v
    pub read_passive : (w : World) (r k : ℕ) → registers (bus.read_reg w r).0 k ≡ registers w k
    pub write_apart :
        (w : World) (r v k : ℕ)
        → k ≢ r
        → (bus.write_reg w r v).1 ≡ ok
        → registers (bus.write_reg w r v).0 k ≡ registers w k

  module _ (chip : Chip) where
    read_back-registers :
        (w : World) (v : ℕ)
        → (read_back bus w v).1 ≡ ok
        → registers (read_back bus w v).0 reg_output ≡ v
    unfolding read_back
    read_back-registers w v h = elim (Reply-cases (bus.read_reg w reg_output).1) [
      | inl (back, e) ↦
          ground (
            arith,
            chip.read_faithful w reg_output back e,
            chip.read_passive w reg_output reg_output,
          )
      | inr (f, e) ↦ ground arith
    ]

    -- tca9554_write_outputs() returns ESP_OK only when the output register holds the value.
    pub write_outputs-registers :
        (w : World) (v : ℕ)
        → (write_outputs bus w v).1 ≡ ok
        → registers (write_outputs bus w v).0 reg_output ≡ v
    unfolding write_outputs
    write_outputs-registers w v h =
        ground (arith, read_back-registers (bus.write_reg w reg_output v).0 v)

    -- tca9554_init_outputs() returns ESP_OK only when the output register holds the value, also
    -- after the pins were made outputs.
    pub init_outputs-registers :
        (w : World) (v : ℕ)
        → (init_outputs bus w v).1 ≡ ok
        → registers (init_outputs bus w v).0 reg_output ≡ v
    unfolding init_outputs
    init_outputs-registers w v h = ground (
      arith,
      write_outputs-registers w v,
      chip.write_apart (write_outputs bus w v).0 reg_config 0 reg_output (omega arith),
    )
