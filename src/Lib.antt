-- ===== src/Lib.antt =====
-- signalk-espOS-8relay: firmware of an eight-channel relay board for boats, as a model with proofs.
--
-- The program. A relay controller (components/relay_ctrl) owns the eight coils behind a TCA9554
-- I2C expander: commands come in from Signal K, NMEA 2000, the web page, inputs and schedules, a
-- tick every 10 ms runs its timers, and listeners are told what has changed. device_config reads
-- the settings that all parts share. switch_bank speaks the NMEA 2000 switch bank and alerts,
-- input_sense debounces the eight inputs, schedule switches relays by the clock and the sun,
-- counters keeps totals, button is the BOOT button, and espos_tone, indicator, rtc_pcf85063,
-- eth_w5500 and web_ui serve the buzzer, the LED, the clock, the wire and the browser.
-- main/main.c starts them all.
--
-- How the model is written. A C struct is a record, an enum a data type, a fixed array a function
-- from the index, a uint8_t mask a number whose bits are read by `test`. Sums and differences of
-- uint32_t wrap (Base/Words). A function that changes a static struct takes the state and returns
-- the next one with its result. Listener calls are returned as the list of notices in their order;
-- the lock makes each public function one step, so interleavings are sequences of such calls.
-- A loop with a constant bound is a recursion on the number of rounds, a loop over a text or an array
-- a recursion on the list. Three kinds of loop run on fuel. A round of put_string() in
-- n2k_alert_pgn.c writes two bytes, so as many rounds as the buffer has bytes are enough
-- (wide_loop-enough). A round of the two loops of rtttl_parse() consumes a character or ends, so one
-- more round than the text has characters is enough, and without them the parser returns nothing.
-- A decimal of uint32_t in sk_bridge.c has at most ten digits.
-- The clock, the I2C bus and the stored state are not code of this repository: they are functions
-- on a `World`, the fields of relay_ctrl_hw_t, with which the definitions are parametrised, and
-- what is assumed of them (that a register reads back what it holds) is named by a theorem that
-- needs it. In Button and InputSense, what a call reads of the pins and of the clock is an
-- argument of it. In SkBridge, a call that may read a source several times takes a function from
-- the number of the read, and what it sends to the SignalK client is a list of calls in their order;
-- in N2kBridge what is sent is a list of messages. The C library's strtod() is a parameter of the
-- PUT handler, and the floating-point duration of a note one of the ringtone parser.
--
-- The files.
--   Base and Base/*: the libraries' names, Boolean tests, bits of a byte, fixed-width words, masks.
--   Board: constants of components/board/include/board.h and the error codes.
--   DeviceConfig: the settings record of components/device_config/include/device_config.h and the
--     fail-safe policy; DeviceConfig/Interlock: how device_config_load() derives interlock pairs;
--     DeviceConfig/Schedules: how it parses the schedules and parts those for one relay. Usable and
--     Conflicts are proofs.
--   Tca9554: components/relay_ctrl/src/tca9554.c; Tca9554/Laws: what it does to a faithful chip.
--   Relay: components/relay_ctrl/src/relay_ctrl.c. State holds the static struct `s` and the small
--     helpers, Commit commit_locked() and track_max_on_locked(), Notify the listeners and the
--     getters, Switch set_or_toggle() and relay_ctrl_sk_lost(), Update
--     relay_ctrl_update_config(), Tick relay_ctrl_tick(), Boot relay_ctrl_init(). Proofs: Pairs
--     and Limits are about the settings and the timers of one relay, Frame, Effects, Fire,
--     FireWaiting and Adopt about what each step changes, Exclusive about the interlock, Timed
--     about pulses and maximum on-times, Mirror about the expander's register, Restore and
--     Resume about the boot, Runs about a board in use, from the boot on.
--   Button: components/button/src/button_logic.c; Button/Debounce and Button/Press are proofs.
--   SwitchBank/Pgn: components/switch_bank/src/switch_bank_pgn.c; Fields and Payload are proofs.
--   InputSense: components/input_sense/src/input_sense.c; InputSense/Poll is input_sense_poll(),
--     Settle, Start and Events are proofs.
--   Counters: components/counters/src/counters.c; Counters/Live, Kept and Race are proofs about what
--     is read, what is stored, and calls that come between the two parts of a tick.
--   Schedule: components/schedule/src/schedule_eval.c, with the times of the sun as an argument;
--     Schedule/Windows, Active and Edges are proofs.
--   N2kAlert: components/switch_bank/src/n2k_alert_pgn.c; Header and Text are proofs.
--   Alerts: components/switch_bank/src/n2k_alerts.c, in State, Tick and Response;
--     Follow, Trips and Ack are proofs.
--   SkBridge: components/switch_bank/src/sk_bridge.c. Text holds the paths and JSON texts, Publish
--     what is published, State the struct and the public functions, Put the PUT handler. Proofs:
--     View, Shown and Refresh are about what the calls leave at the server, Kept and Taken about what
--     saved settings leave alone and change, Server and Sync about the bridge beside the
--     relays and a server that calls may not reach, Lost about the loss of the server, Escape about JSON strings and buffers, Paths about the paths.
--   N2kBridge: components/switch_bank/src/n2k_bridge.cpp. State holds the struct, the task and the
--     messages, Start n2k_bridge_start(), Rounds the task in pieces beside the others. Control and
--     Fresh are proofs, about messages that switch relays and about what the bus has been told.
--   Tone: components/espos_tone/src, with rtttl.c in Rtttl, tone_player.c in Player and tone.c in
--     Library. Ends, Pass and Pitch are proofs.
--   Rtc: components/rtc_pcf85063/src/pcf85063.c and rtc_pcf85063.c; Rtc/Calendar, Registers and
--     RoundTrip are proofs.
--   Indicator: components/indicator/src/indicator_logic.c; Indicator/Morse is a proof.
--   WebUi: components/web_ui/src/web_ui_logic.c without the JSON; WebUi/Paths is a proof.
--   Tests: a board to run the model on, runs with their results, and each theorem at an example.
--
-- Not modelled: drivers and glue that only call the vendor's SDK (button_hw.c, input_hw.c, rtc_hw.c,
-- board_i2c.c, eth_w5500.c, the tasks in main.c), the texts of log and health messages, the copy
-- of the espos_n2k library, the floating-point astronomy of sun.c, and, so far, the position,
-- indicator.c, the texts of the Morse messages and the rest of web_ui and of device_config_load().
pub mod Base
pub mod Board
pub mod DeviceConfig
pub mod Tca9554
pub mod Relay
pub mod Button
pub mod SwitchBank
pub mod N2kAlert
pub mod Alerts
pub mod InputSense
pub mod Counters
pub mod Schedule
pub mod Rtc
pub mod Indicator
pub mod WebUi
pub mod SkBridge
pub mod N2kBridge
pub mod Tone
mod Tests
