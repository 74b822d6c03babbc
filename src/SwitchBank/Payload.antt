-- ===== src/SwitchBank/Payload.antt =====
-- What the two payloads carry, field by field, and from one end to the other.
use signalk_esp_os_8relay.Base.{
  ℕ, zero, suc, ◌+◌, ◌-◌, ◌*◌, ◌/◌, ◌%◌, ◌^◌, ◌<◌, if◌then◌else◌, true, false, not, ◌&&◌, ◌||◌,
  ◌==◌, ltb, leb, bit_or, bit_and, some, none, ◌≡◌, refl, ap, ◌∙◌, inl, inr, arith, Bool-cases,
  same_at,
}
use signalk_esp_os_8relay.Base.Bits.{
  test, test-bit_and, test-bit_or, test-zero, test-high, lt_of_test, eq_of_test,
}
use signalk_esp_os_8relay.Base.Masks.{mask_of, mask_of-ext}
use signalk_esp_os_8relay.Base.Words.{u8}
use package.signalk_esp_os_8relay.SwitchBank.Pgn.{
  payload_len, fields, status_of, or_at, encode_loop, cleared, encode_status, field, decode_loop,
  decode_control,
}
use package.signalk_esp_os_8relay.SwitchBank.Fields.{
  test-shift_left, test-shift_right, test-u8, field_of_bits,
}

-- A two-bit value shifted to field `r` of a byte has its bits there and nowhere else.
shift-field :
    (v r k c : ℕ)
    → v < 4
    → r < 4
    → k < 4
    → c < 2
    → test (u8 (v * 2 ^ (2 * r))) (2 * k + c) ≡ ((r == k) && test v c)
shift-field v r k c hv hr hk hc =
    let t =
      test-u8 (v * 2 ^ (2 * r)) (2 * k + c)
      ∙ ap (λ b. ltb (2 * k + c) 8 && b) (test-shift_left (2 * r) v (2 * k + c)) in
    ground (arith, t, same, high)
  where
    same : r ≡ k → test v (2 * k + c - 2 * r) ≡ test v c
    same e = let d : 2 * k + c - 2 * r ≡ c = omega arith in rw d refl

    high : r < k → test v (2 * k + c - 2 * r) ≡ false
    high l = test-high v 2 (2 * k + c - 2 * r) (omega arith) (omega arith)

or_at-hit :
    (out : ℕ → ℕ) (at v j k : ℕ)
    → at ≡ j
    → k < 8
    → test (or_at out at v j) k ≡ (test (out j) k || test v k)
unfolding or_at
or_at-hit out at v j k e h = ground (arith, test-u8 (bit_or (out j) v) k, test-bit_or k (out j) v)

or_at-miss : (out : ℕ → ℕ) (at v j : ℕ) → (at == j) ≡ false → or_at out at v j ≡ out j
unfolding or_at
or_at-miss out at v j e = rw e refl

status_small : (mask channels i : ℕ) → status_of mask channels i < 4
unfolding status_of
status_small mask channels i =
    let low : bit_and (mask / 2 ^ i) 1 < 4 = one_small (mask / 2 ^ i) in ground arith
  where
    one_small : (x : ℕ) → bit_and x 1 < 4
    one_small x =
        lt_of_test (bit_and x 1) 2
          (λ j le. test-bit_and j x 1 ∙ ground (arith, test-high 1 2 j (omega arith) le))

module _ (bank_instance mask channels : ℕ) where
  abbrev bytes : ℕ → ℕ → ℕ
  bytes n = encode_loop mask channels (cleared bank_instance) n

  -- After `n` rounds the first `n` fields are written, and the others are 0.
  encode_loop-field :
      (n i c : ℕ)
      → c < 2
      → test (bytes n (1 + i / 4)) (2 * (i % 4) + c)
        ≡ (ltb i n && test (status_of mask channels i) c)
  unfolding encode_loop cleared
  encode_loop-field zero i c h = ground (arith, test-zero (2 * (i % 4) + c))
  encode_loop-field (suc n) i c h =
      let v = status_of mask channels n in
      let old = encode_loop-field n i c h in
      let put = u8 (v * 2 ^ (2 * (n % 4))) in
      let here =
        shift-field v (n % 4) (i % 4) c (status_small mask channels n) (omega arith) (omega arith)
          h in
      elim (Bool-cases (1 + n / 4 == 1 + i / 4)) [
        | inl e ↦
            or_at-hit (bytes n) (1 + n / 4) put (1 + i / 4) (2 * (i % 4) + c) (ground (arith, e))
              (omega arith)
            ∙ ground (arith, old, here, same_at (λ k. test (status_of mask channels k) c) n i)
        | inr e ↦
            ap (λ b. test b (2 * (i % 4) + c)) (or_at-miss (bytes n) (1 + n / 4) put (1 + i / 4) e)
            ∙ ground (arith, old)
      ]

  encode_loop-instance : (n : ℕ) → bytes n 0 ≡ bank_instance
  unfolding encode_loop cleared or_at
  encode_loop-instance zero = refl
  encode_loop-instance (suc n) = ground (arith, encode_loop-instance n)

  status_of-value :
      (i : ℕ)
      → status_of mask channels i ≡ (if leb channels i then 3 else if test mask i then 1 else 0)
  unfolding status_of
  status_of-value i =
      let one = one_bit (mask / 2 ^ i) in
      let shifted = test-shift_right i mask 0 in
      let k : i + 0 ≡ i = omega arith in
      ground (arith, one, shifted, same_at (test mask) (i + 0) i k)
    where
      one_bit : (x : ℕ) → bit_and x 1 ≡ (if test x 0 then 1 else 0)
      one_bit x =
          eq_of_test (bit_and x 1) (if test x 0 then 1 else 0) (λ j. test-bit_and j x 1 ∙ at x j)
        where
          at : (x j : ℕ) → (test x j && test 1 j) ≡ test (if test x 0 then 1 else 0) j
          at x zero = ground arith
          at x (suc j) = ground (arith, test-zero j)

  encode_field :
      (i : ℕ)
      → i < 28
      → field (encode_status bank_instance mask channels) i ≡ status_of mask channels i
  unfolding field encode_status
  encode_field i h =
      let s = 2 * (i % 4) in
      let x = bytes 28 (1 + i / 4) in
      field_of_bits (x / 2 ^ s) (status_of mask channels i) (status_small mask channels i)
        (test-shift_right s x 0 ∙ ground (arith, encode_loop-field 28 i 0 (omega arith)))
        (test-shift_right s x 1 ∙ ground (arith, encode_loop-field 28 i 1 (omega arith)))

  -- A status payload starts with the instance, and each of its 28 fields reads back as 3 beyond the
  -- channels, else as 1 for a channel that is on and 0 for one that is off.
  pub encode_status-field :
      (i : ℕ)
      → i < fields
      → (encode_status bank_instance mask channels 0 ≡ bank_instance)
        × (field (encode_status bank_instance mask channels) i
            ≡ (if leb channels i then 3 else if test mask i then 1 else 0))
  unfolding encode_status
  encode_status-field i h = (encode_loop-instance 28, encode_field i h ∙ status_of-value i)

-- The channels among the first `n` whose field is `v`.
abbrev pub asked : (ℕ → ℕ) → ℕ → ℕ → ℕ → ℕ
asked payload channels v n = mask_of n (λ i. ltb i channels && (field payload i == v))

decode_loop-asked :
    (payload : ℕ → ℕ) (channels n : ℕ)
    → decode_loop payload channels n
      ≡ record { on = asked payload channels 1 n; off = asked payload channels 0 n }
unfolding decode_loop mask_of
decode_loop-asked payload channels zero = refl
decode_loop-asked payload channels (suc n) =
    rw (decode_loop-asked payload channels n) (ground arith)

-- A control payload that is short or for another instance is refused; from any other, the channels
-- to switch on are those whose field is 1 and the channels to switch off those whose field is 0,
-- among the bank's own and the 28 of the payload.
pub decode_control-asked :
    (payload : ℕ → ℕ) (len bank_instance channels : ℕ)
    → decode_control payload len bank_instance channels ≡ (
        if leb payload_len len && (payload 0 == bank_instance)
        then some
            (record { on = asked payload channels 1 fields; off = asked payload channels 0 fields })
        else none)
unfolding decode_control
decode_control-asked payload len bank_instance channels =
    rw (decode_loop-asked payload channels fields) (ground arith)

-- The status of a bank, read as a control message for the same bank with as many channels, asks to
-- switch on exactly the channels, up to the 28th, that are on, and off exactly the others.
pub decode-encode :
    (bank_instance mask channels : ℕ)
    → decode_control (encode_status bank_instance mask channels) payload_len bank_instance channels
      ≡ some (record {
        on = mask_of fields (λ i. ltb i channels && test mask i);
        off = mask_of fields (λ i. ltb i channels && not (test mask i));
      })
decode-encode bank_instance mask channels =
    let payload = encode_status bank_instance mask channels in
    let first : payload 0 ≡ bank_instance =
      (encode_status-field bank_instance mask channels 0 (omega arith)).0 in
    let self : (payload 0 == bank_instance) ≡ true = ground arith in
    let on_same : asked payload channels 1 fields
        ≡ mask_of fields (λ i. ltb i channels && test mask i) =
      mask_of-ext fields _ _
        (λ i h. ground (arith, (encode_status-field bank_instance mask channels i h).1)) in
    let off_same : asked payload channels 0 fields
        ≡ mask_of fields (λ i. ltb i channels && not (test mask i)) =
      mask_of-ext fields _ _
        (λ i h. ground (arith, (encode_status-field bank_instance mask channels i h).1)) in
    decode_control-asked payload payload_len bank_instance channels
    ∙ rw self (rw (on_same, off_same) refl)
