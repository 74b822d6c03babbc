-- ===== src/Alerts/Ack.antt =====
-- Acknowledgements from the bus, from the payload on: the current alert is acknowledged, and one that
-- answers an earlier trip of the same input is not.
use signalk_esp_os_8relay.Base.{
  ℕ, zero, suc, ◌+◌, ◌-◌, ◌*◌, ◌/◌, ◌^◌, ◌<◌, ◌≤◌, if◌then◌else◌, true, false, List, [], ◌∷◌, ◌++◌,
  length, Option, some, none, bit_and, ◌≡◌, ◌≢◌, refl, ap, ◌∙◌, arith,
}
use signalk_esp_os_8relay.Base.Words.{u8}
use signalk_esp_os_8relay.DeviceConfig.{InputAlarm}
use signalk_esp_os_8relay.N2kAlert.{
  AlertId, Response, put_u64, encode_header, byte_at, decode_response,
}
use signalk_esp_os_8relay.N2kAlert.Header.{IsId, get_u64-put, decode_header-encode}
use signalk_esp_os_8relay.Alerts.State.{Alerts, type_of, id_of, put}
use signalk_esp_os_8relay.Alerts.Trips.{Event, run, trips, run-other}
use signalk_esp_os_8relay.Alerts.Response.{is_ours, is_current, accepts, acknowledge, on_response}

-- The response of a display: the header of the alert as it was sent, the display's name, a command.
abbrev pub reply : AlertId → ℕ → ℕ → List ℕ
reply id name command = encode_header id ++ (put_u64 name ++ (command ∷ []))

module _ (id : AlertId) (name command : ℕ) where
  name_bytes : (j : ℕ) → j < 8 → byte_at (reply id name command) (16 + j) ≡ u8 (name / 2 ^ (8 * j))
  unfolding encode_header
  name_bytes zero l = refl
  name_bytes (suc zero) l = refl
  name_bytes (suc (suc zero)) l = refl
  name_bytes (suc (suc (suc zero))) l = refl
  name_bytes (suc (suc (suc (suc zero)))) l = refl
  name_bytes (suc (suc (suc (suc (suc zero))))) l = refl
  name_bytes (suc (suc (suc (suc (suc (suc zero)))))) l = refl
  name_bytes (suc (suc (suc (suc (suc (suc (suc zero))))))) l = refl
  name_bytes (suc (suc (suc (suc (suc (suc (suc (suc j)))))))) l = absurd (omega arith)

  reply-length : length (reply id name command) ≡ 25
  unfolding encode_header
  reply-length = refl

  reply-command : byte_at (reply id name command) 24 ≡ command
  unfolding encode_header
  reply-command = refl

  decode_response-reply :
      IsId id
      → name < 2 ^ 64
      → decode_response (reply id name command)
        ≡ some (record { id = id; ack_name = name; command = bit_and command 3 })
  unfolding decode_response
  decode_response-reply fits h =
      let i = decode_header-encode id fits (put_u64 name ++ (command ∷ [])) in
      let n = get_u64-put name (λ j. byte_at (reply id name command) (16 + j)) h name_bytes in
      rw (reply-length)
        (λ k. some (record { id = i k; ack_name = n k; command = bit_and (reply-command k) 3 }))

type_of-small : (level : InputAlarm) → type_of level < 16
unfolding type_of
type_of-small InputAlarm.off = omega arith
type_of-small InputAlarm.warn = omega arith
type_of-small InputAlarm.alarm = omega arith
type_of-small InputAlarm.emergency = omega arith

module _ (a : Alerts) (ch name : ℕ) (low : 1 ≤ ch) (high : ch ≤ 8) (own : a.source_name < 2 ^ 64)
    (their : name < 2 ^ 64) where
  id_of-IsId : (level : InputAlarm) (occurrence : ℕ) → IsId (id_of a ch level occurrence)
  unfolding id_of
  id_of-IsId level occurrence = record {
    alert_type = type_of-small level;
    category = omega arith;
    id = omega arith;
    source_name = own;
  }

  on_response-reply :
      (a' : Alerts) (level : InputAlarm) (occurrence : ℕ)
      → on_response a' (reply (id_of a ch level occurrence) name 0)
        ≡ acknowledge a' (record { id = id_of a ch level occurrence; ack_name = name; command = 0 })
  unfolding on_response
  on_response-reply a' level occurrence =
      ap (λ (d : Option Response). elim d [ none ↦ (a', false) | some r ↦ acknowledge a' r ])
        (decode_response-reply (id_of a ch level occurrence) name 0 (id_of-IsId level occurrence)
          their)

  abbrev current : AlertId
  current = id_of a ch (a.chan (ch - 1)).level (a.chan (ch - 1)).occurrence

  abbrev answer : Response
  answer = record { id = current; ack_name = name; command = 0 }

  answer-accepts :
      (a.chan (ch - 1)).active ≡ true → (a.chan (ch - 1)).acked ≡ false → accepts a answer ≡ true
  unfolding accepts is_ours is_current id_of
  answer-accepts up new = ground (arith, up, new)

  answer-refused :
      (a' : Alerts)
      → (type_of (a'.chan (ch - 1)).level ≡ type_of (a.chan (ch - 1)).level
          → (a'.chan (ch - 1)).occurrence ≢ (a.chan (ch - 1)).occurrence)
      → accepts a' answer ≡ false
  unfolding accepts is_ours is_current id_of
  answer-refused a' other = ground (arith, other)

  -- The response that a display sends with the header of the alert of an input as it is now, and
  -- the command to acknowledge, acknowledges that alert under the display's name, makes its status
  -- due and changes nothing else: this for input 1 to 8 with an alert that is active and not
  -- acknowledged, and names of 64 bits.
  pub on_response-current :
      (a.chan (ch - 1)).active ≡ true
      → (a.chan (ch - 1)).acked ≡ false
      → on_response a (reply current name 0) ≡ (
        record a {
          chan =
              put
                (ch - 1)
                (record (a.chan (ch - 1)) { acked = true; ack_name = name; status_due = true })
                a.chan;
        },
        true,
      )
  unfolding acknowledge id_of
  on_response-current up new =
      on_response-reply a (a.chan (ch - 1)).level (a.chan (ch - 1)).occurrence
      ∙ ap
          (λ b.
            if b
            then (
              record a {
                chan =
                    put (ch - 1)
                      (record (a.chan (ch - 1)) {
                        acked = true;
                        ack_name = name;
                        status_due = true;
                      })
                      a.chan;
              },
              true,
            )
            else (a, false))
          (answer-accepts up new)

  -- The acknowledgement of an alert as it was before any sequence of ticks, saved settings and
  -- messages from the bus changes nothing after them, when the alert of that input has been raised
  -- anew 1 to 254 times in the sequence, whether after a clear or at another severity: this for
  -- input 1 to 8, an occurrence of 8 bits and names of 64 bits.
  pub on_response-late :
      (es : List Event)
      → (a.chan (ch - 1)).occurrence < 256
      → 1 ≤ trips (ch - 1) es a
      → trips (ch - 1) es a ≤ 254
      → on_response (run es a) (reply current name 0) ≡ (run es a, false)
  unfolding acknowledge id_of
  on_response-late es small few most =
      on_response-reply (run es a) (a.chan (ch - 1)).level (a.chan (ch - 1)).occurrence
      ∙ ap
          (λ b.
            if b
            then (
              record (run es a) {
                chan =
                    put (ch - 1)
                      (record ((run es a).chan (ch - 1)) {
                        acked = true;
                        ack_name = name;
                        status_due = true;
                      })
                      (run es a).chan;
              },
              true,
            )
            else (run es a, false))
          (answer-refused (run es a) (λ _. run-other es a (ch - 1) (omega arith) small few most))
