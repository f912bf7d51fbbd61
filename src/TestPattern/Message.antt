-- ===== src/TestPattern/Message.antt =====
-- testpattern.rs: ids, flags, and the framed messages with their eight-byte encoding.
pub mod RoundTrip
use wiretap_lib_rs.Base.{
  ℕ, ◌+◌, ◌-◌, ◌*◌, ◌/◌, ◌%◌, bit_and, bit_or, Bool, true, false, not, ◌&&◌, ◌||◌, Option, none,
  some, List, [], ◌∷◌, ◌++◌, length, ltb, leb, ◌==◌, if◌then◌else◌, of_bool,
}
use wiretap_lib_rs.Base.Bytes.{at, u16_to_be, u16_from_be, u32_to_be, u32_from_be}

abbrev pub header_bytes : ℕ
header_bytes = 8

abbrev pub id_ping_request : ℕ
id_ping_request = 0x7F0

abbrev pub id_ping_reply : ℕ
id_ping_reply = 0x7F1

abbrev pub id_throughput_tx : ℕ
id_throughput_tx = 0x7F2

abbrev pub id_throughput_rx : ℕ
id_throughput_rx = 0x7F3

abbrev pub id_latency_probe : ℕ
id_latency_probe = 0x7F4

abbrev pub id_latency_reply : ℕ
id_latency_reply = 0x7F5

abbrev pub id_control : ℕ
id_control = 0x7F6

abbrev pub id_status : ℕ
id_status = 0x7F7

abbrev pub id_extended_base : ℕ
id_extended_base = 0x1F00_07F0

abbrev pub id_base : ℕ
id_base = 0x7F0

-- The protocol's own ids are not below `id_base`, so the subtraction does not wrap.
unfoldable pub extended_id : ℕ → ℕ
extended_id arb_id = id_extended_base + (arb_id - id_base)

pub record Flags : Type 0 where
  pub bytes_mode : Bool
  pub interface : ℕ
  pub run : ℕ

unfoldable pub flags_new : ℕ → ℕ → Flags
flags_new interface run = record {
  bytes_mode = false;
  interface = bit_and interface 0x07;
  run = bit_and run 0x0F;
}

unfoldable pub flags_encode : Flags → ℕ
flags_encode f =
    bit_or (bit_or (of_bool f.bytes_mode) (bit_and f.interface 0x07 * 2 % 256))
      (bit_and f.run 0x0F * 16 % 256)

unfoldable pub flags_decode : ℕ → Flags
flags_decode b = record {
  bytes_mode = not (bit_and b 1 == 0);
  interface = bit_and (b / 2) 0x07;
  run = bit_and (b / 16) 0x0F;
}

pub data Command : Type 0 where
  start : (mode run : ℕ) → Command
  stop : Command
  set_rate : (fps : ℕ) → Command
  request_status : Command
  hello : Command
  hello_reply : (capabilities bus : ℕ) → Command
  unknown : (code body_0 body_1 body_2 : ℕ) → Command

pub data Message : Type 0 where
  ping_request : (seq : ℕ) → Message
  ping_reply : (seq : ℕ) → Message
  throughput : (seq pattern_id : ℕ) → Message
  latency_probe : (seq ts_us : ℕ) → Message
  latency_reply : (seq ts_us : ℕ) → Message
  control : Command → Message
  status : (field_id value : ℕ) → Message

unfoldable pub arb_id : Message → ℕ
arb_id (ping_request seq) = id_ping_request
arb_id (ping_reply seq) = id_ping_reply
arb_id (throughput seq pattern_id) = id_throughput_tx
arb_id (latency_probe seq ts_us) = id_latency_probe
arb_id (latency_reply seq ts_us) = id_latency_reply
arb_id (control c) = id_control
arb_id (status field_id value) = id_status

unfoldable pub command_body : Command → List ℕ
command_body (start mode run) = 0x01 ∷ mode ∷ bit_and run 0x0F ∷ 0 ∷ []
command_body stop = 0x02 ∷ 0 ∷ 0 ∷ 0 ∷ []
command_body (set_rate fps) = 0x03 ∷ (u16_to_be fps ++ (0 ∷ []))
command_body request_status = 0x04 ∷ 0 ∷ 0 ∷ 0 ∷ []
command_body hello = 0x05 ∷ 0 ∷ 0 ∷ 0 ∷ []
command_body (hello_reply capabilities bus) = 0x85 ∷ capabilities ∷ bus ∷ 0 ∷ []
command_body (unknown code b0 b1 b2) = code ∷ b0 ∷ b1 ∷ b2 ∷ []

unfoldable pub parse_command : ℕ → ℕ → ℕ → ℕ → Command
parse_command code a b c =
    if code == 0x01
    then start a (bit_and b 0x0F)
    else if code == 0x02
    then stop
    else if code == 0x03
    then set_rate (u16_from_be a b)
    else if code == 0x04
    then request_status
    else if code == 0x05
    then hello
    else if code == 0x85
    then hello_reply a b
    else unknown code a b c

-- Tag, sequence number and the four bytes behind it.
unfoldable pub parts : Message → ℕ × ℕ × List ℕ
unfolding command_body
parts (ping_request seq) = (0x01, seq, 0 ∷ 0 ∷ 0 ∷ 0 ∷ [])
parts (ping_reply seq) = (0x02, seq, 0 ∷ 0 ∷ 0 ∷ 0 ∷ [])
parts (throughput seq pattern_id) = (0x03, seq, pattern_id ∷ 0 ∷ 0 ∷ 0 ∷ [])
parts (latency_probe seq ts_us) = (0x04, seq, u32_to_be ts_us)
parts (latency_reply seq ts_us) = (0x05, seq, u32_to_be ts_us)
parts (control c) = (0x06, 0, command_body c)
parts (status field_id value) =
    (0x07, 0, field_id ∷ (value / 65536 % 256) ∷ (value / 256 % 256) ∷ (value % 256) ∷ [])

unfoldable pub encode : Message → Flags → List ℕ
unfolding parts
encode msg flags = let p = parts msg in (p.0 ∷ flags_encode flags ∷ []) ++ (u16_to_be p.1 ++ p.2)

-- The message under a tag, from the sequence number and the four bytes behind it.
unfoldable pub message_of : ℕ → ℕ → ℕ → ℕ → ℕ → ℕ → Option Message
unfolding parse_command
message_of tag seq e0 e1 e2 e3 =
    if tag == 0x01
    then some (ping_request seq)
    else if tag == 0x02
    then some (ping_reply seq)
    else if tag == 0x03
    then some (throughput seq e0)
    else if tag == 0x04
    then some (latency_probe seq (u32_from_be e0 e1 e2 e3))
    else if tag == 0x05
    then some (latency_reply seq (u32_from_be e0 e1 e2 e3))
    else if tag == 0x06
    then some (control (parse_command e0 e1 e2 e3))
    else if tag == 0x07
    then some (status e0 (u32_from_be 0 e1 e2 e3))
    else none

unfoldable pub decode : List ℕ → Option (Message × Flags)
unfolding message_of
decode bytes =
    if ltb (length bytes) header_bytes
    then none
    else elim (message_of (at bytes 0) (u16_from_be (at bytes 2) (at bytes 3)) (at bytes 4)
        (at bytes 5) (at bytes 6) (at bytes 7)) [
          | none ↦ none
          | some msg ↦ some (msg, flags_decode (at bytes 1))
        ]
