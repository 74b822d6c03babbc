-- ===== src/N2kAlert.antt =====
-- components/switch_bank/src/n2k_alert_pgn.c: the payloads of PGN 126983, 126984 and 126985. What is
-- written is a list of bytes, what is read is read by its index. A string is the list of its bytes
-- without the final 0.
pub mod Header
pub mod Text
use signalk_esp_os_8relay.Base.{
  ℕ, zero, suc, ◌+◌, ◌-◌, ◌*◌, ◌/◌, ◌%◌, ◌^◌, if◌then◌else◌, Bool, true, false, not, ◌&&◌, ◌||◌,
  ◌==◌, ltb, leb, List, [], ◌∷◌, ◌++◌, length, get_or, Option, none, some, bit_or, bit_and,
}
use signalk_esp_os_8relay.Base.Words.{u8, u16, u32, u64}

abbrev pub header_len : ℕ
header_len = 16

abbrev pub response_len : ℕ
response_len = 25

abbrev pub text_max_len : ℕ
text_max_len = 223

-- n2k_alert_id_t
pub record AlertId : Type 0 where
  pub alert_type : ℕ
  pub category : ℕ
  pub system : ℕ
  pub subsystem : ℕ
  pub id : ℕ
  pub source_name : ℕ
  pub source_instance : ℕ
  pub index : ℕ
  pub occurrence : ℕ

-- n2k_alert_t
pub record Alert : Type 0 where
  pub id : AlertId
  pub silenced : Bool
  pub acknowledged : Bool
  pub escalated : Bool
  pub silence_supported : Bool
  pub ack_supported : Bool
  pub escalation_supported : Bool
  pub ack_name : ℕ
  pub trigger : ℕ
  pub threshold : ℕ
  pub priority : ℕ
  pub state : ℕ

-- n2k_alert_response_t
pub record Response : Type 0 where
  pub id : AlertId
  pub ack_name : ℕ
  pub command : ℕ

abbrev pub put_u16 : ℕ → List ℕ
put_u16 v = u8 v ∷ u8 (v / 2 ^ 8) ∷ []

-- The bytes from the `i`th on.
unfoldable pub put_loop : ℕ → ℕ → ℕ → List ℕ
put_loop v i zero = []
put_loop v i (suc n) = u8 (v / 2 ^ (8 * i)) ∷ put_loop v (suc i) n

abbrev pub put_u64 : ℕ → List ℕ
put_u64 v = put_loop v 0 8

-- get_u64(), at the bytes `p`: the rounds of the loop that are left.
unfoldable pub get_loop : (ℕ → ℕ) → ℕ → ℕ → ℕ
get_loop p v zero = v
get_loop p v (suc i) = get_loop p (bit_or (u64 (v * 2 ^ 8)) (p i)) i

abbrev pub get_u64 : (ℕ → ℕ) → ℕ
get_u64 p = get_loop p 0 8

abbrev pub nibbles : ℕ → ℕ → ℕ
nibbles low high = u8 (bit_or (bit_and low 15) (high * 2 ^ 4))

unfoldable pub encode_header : AlertId → List ℕ
unfolding put_loop
encode_header a =
    nibbles a.alert_type a.category
    ∷ a.system
    ∷ a.subsystem
    ∷ (put_u16 a.id ++ (put_u64 a.source_name ++ (a.source_instance ∷ a.index ∷ a.occurrence ∷ [])))

-- `p[i]` of a list of bytes.
abbrev pub byte_at : List ℕ → ℕ → ℕ
byte_at p i = get_or p i 0

unfoldable pub decode_header : (ℕ → ℕ) → AlertId
unfolding get_loop
decode_header p = record {
  alert_type = bit_and (p 0) 15;
  category = p 0 / 2 ^ 4;
  system = p 1;
  subsystem = p 2;
  id = u16 (bit_or (p 3) (p 4 * 2 ^ 8));
  source_name = get_u64 (λ i. p (5 + i));
  source_instance = p 13;
  index = p 14;
  occurrence = p 15;
}

abbrev pub flag : Bool → ℕ → ℕ
flag b v = if b then v else 0

unfoldable pub flags : Alert → ℕ
flags a = u8 (
    bit_or
      (bit_or
        (bit_or
          (bit_or (bit_or (bit_or (flag a.silenced 1) (flag a.acknowledged 2)) (flag a.escalated 4))
            (flag a.silence_supported 8))
          (flag a.ack_supported 16))
        (flag a.escalation_supported 32))
      192)

-- n2k_alert_encode
unfoldable pub encode : Alert → List ℕ
unfolding encode_header flags
encode a =
    encode_header a.id
    ++ (flags a
        ∷ (put_u64 a.ack_name ++ (nibbles a.trigger a.threshold ∷ a.priority ∷ a.state ∷ [])))

-- n2k_alert_decode_response
unfoldable pub decode_response : List ℕ → Option Response
decode_response payload =
    if ltb (length payload) response_len
    then none
    else some (record {
      id = decode_header (byte_at payload);
      ack_name = get_u64 (λ i. byte_at payload (16 + i));
      command = bit_and (byte_at payload 24) 3;
    })

-- The continuation bytes of next_code_point(): `extra` of them, into `cp`.
unfoldable pub continue_code_point : ℕ → ℕ → List ℕ → ℕ × List ℕ
continue_code_point zero cp s = (if ltb 65535 cp then b'?' else u16 cp, s)
continue_code_point (suc extra) cp [] = (b'?', [])
continue_code_point (suc extra) cp (cc ∷ s) =
    let rest = continue_code_point extra (u32 (bit_or (cp * 2 ^ 6) (bit_and cc 63))) s in
    if not (bit_and cc 192 == 128) then (b'?', cc ∷ s) else rest

-- next_code_point(), after the byte `c`.
unfoldable pub next_code_point : ℕ → List ℕ → ℕ × List ℕ
unfolding continue_code_point
next_code_point c s =
    if ltb c 128
    then (c, s)
    else if bit_and c 224 == 192
    then continue_code_point 1 (bit_and c 31) s
    else if bit_and c 240 == 224
    then continue_code_point 2 (bit_and c 15) s
    else if bit_and c 248 == 240
    then continue_code_point 3 (bit_and c 7) s
    else (b'?', s)

-- `ascii` of put_string().
unfoldable pub is_ascii : List ℕ → Bool
is_ascii [] = true
is_ascii (c ∷ s) = let rest = is_ascii s in if leb 128 c then false else rest

-- memcpy() of the first bytes.
unfoldable pub first : ℕ → List ℕ → List ℕ
first zero s = []
first (suc n) [] = []
first (suc n) (c ∷ s) = c ∷ first n s

-- The while loop for what is not ASCII; each round writes two of the `room` bytes, so `room` rounds
-- are enough.
unfoldable pub wide_loop : (rounds : ℕ) → (room n : ℕ) → List ℕ → List ℕ
wide_loop zero room n s = []
wide_loop (suc rounds) room n [] = []
wide_loop (suc rounds) room n (c ∷ s) =
    let (cp, s') = next_code_point c s in
    let rest = wide_loop rounds room (n + 2) s' in
    if leb (n + 2) room then u8 cp ∷ u8 (cp / 2 ^ 8) ∷ rest else []

-- The characters that put_string() writes.
unfoldable pub characters : List ℕ → ℕ → List ℕ
unfolding is_ascii first wide_loop
characters s room =
    if is_ascii s
    then first (if ltb (length s) (room - 2) then length s else room - 2) s
    else wide_loop room room 2 s

unfoldable pub put_string : List ℕ → ℕ → List ℕ
put_string s room =
    let at_most = if ltb 255 room then 255 else room in
    let text = characters s at_most in u8 (2 + length text) ∷ (if is_ascii s then 1 else 0) ∷ text

-- n2k_alert_encode_text
unfoldable pub encode_text : AlertId → List ℕ → List ℕ → ℕ → List ℕ
encode_text id description location size =
    let at_most = if ltb text_max_len size then text_max_len else size in
    if ltb at_most (header_len + 1 + 4)
    then []
    else let start = encode_header id ++ (0 ∷ []) in
      let described = put_string description (at_most - length start - 2) in
      start ++ (described ++ put_string location (at_most - length start - length described))
