-- ===== src/Tca9554.antt =====
-- components/relay_ctrl/include/tca9554.h and src/tca9554.c, the relay expander. The I2C bus is not
-- part of the repository: it is a `Bus` over a state of the outside, `World`.
pub mod Laws
use signalk_esp_os_8relay.Base.{ℕ, Bool, ◌==◌, if◌then◌else◌}
use signalk_esp_os_8relay.Board.{Status, Reply, ok, fail, got, failed, invalid_response}

-- tca9554_bus_t, with what each call does to the outside.
pub record Bus (World : Type 0) : Type 0 where
  pub read_reg : World → ℕ → World × Reply ℕ
  pub write_reg : World → ℕ → ℕ → World × Status

-- TCA9554_REG_OUTPUT
abbrev pub reg_output : ℕ
reg_output = 1

-- TCA9554_REG_CONFIG
abbrev pub reg_config : ℕ
reg_config = 3

module _ {World : Type 0} (bus : Bus World) where
  unfoldable pub all_outputs : World → World × Reply Bool
  all_outputs w =
      let (w', reply) = bus.read_reg w reg_config in
      elim reply [ got cfg ↦ (w', got (cfg == 0)) | failed e ↦ (w', failed e) ]

  unfoldable pub read_outputs : World → World × Reply ℕ
  read_outputs w = bus.read_reg w reg_output

  -- The read-back at the end of tca9554_write_outputs().
  unfoldable pub read_back : World → ℕ → World × Status
  read_back w value =
      let (w', reply) = bus.read_reg w reg_output in
      elim reply [
        | got back ↦ (w', if back == value then ok else fail invalid_response)
        | failed e ↦ (w', fail e)
      ]

  unfoldable pub write_outputs : World → ℕ → World × Status
  unfolding read_back
  write_outputs w value =
      let (w', status) = bus.write_reg w reg_output value in
      elim status [ ok ↦ read_back w' value | fail e ↦ (w', fail e) ]

  unfoldable pub init_outputs : World → ℕ → World × Status
  unfolding write_outputs
  init_outputs w value =
      let (w', status) = write_outputs w value in
      elim status [ ok ↦ bus.write_reg w' reg_config 0 | fail e ↦ (w', fail e) ]
