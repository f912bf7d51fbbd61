-- ===== src/Gvret/Host.antt =====
-- gvret.rs, the host end: `DeviceDecoder` reads what one device sends.
pub mod Payload
pub mod Stream
pub mod RoundTrip
use wiretap_lib_rs.Base.{
  ℕ, ◌+◌, ◌/◌, bit_and, Bool, true, not, Option, none, some, List, [], ◌∷◌, ◌++◌, length, take,
  drop, ltb, ◌==◌, if◌then◌else◌,
}
use wiretap_lib_rs.Base.Bytes.{at, slice, u16_from_le, u32_le_at}
use wiretap_lib_rs.Base.Framing.{Round, stop, go, drain}
use wiretap_lib_rs.Dlc.{dlc_to_len}
use wiretap_lib_rs.Gvret.Ids.{
  cmd, op_frame, op_timebase, op_canbus_params, op_dev_info, op_keepalive, op_num_buses,
  split_gvret_id,
}

abbrev pub max_resync_bytes : ℕ
max_resync_bytes = 1024

pub data DeviceMessage : Type 0 where
  frame : (ts_us bus arb_id : ℕ) (extended : Bool) (dlc : ℕ) (payload : List ℕ) → DeviceMessage
  timebase : ℕ → DeviceMessage
  canbus_params : (enabled_0 enabled_1 : Bool) (speed_0 speed_1 : ℕ) → DeviceMessage
  dev_info : (build eeprom_version file_type auto_start single_wire : ℕ) → DeviceMessage
  keepalive : DeviceMessage
  num_buses : ℕ → DeviceMessage

pub record DeviceDecoder : Type 0 where
  pub buf : List ℕ

abbrev pub new : DeviceDecoder
new = record { buf = [] }

-- The buffer from its first `F1` on, if it has one.
unfoldable pub from_cmd : List ℕ → Option (List ℕ)
from_cmd [] = none
from_cmd (b ∷ bs) = if b == cmd then some (b ∷ bs) else from_cmd bs

abbrev header : ℕ
header = 11

unfoldable pub take_frame : List ℕ → Option (DeviceMessage × List ℕ)
take_frame buf =
    if ltb (length buf) header
    then none
    else (let bus_dlc = at buf 10 in
        let dlc = bit_and bus_dlc 0x0F in
        let len = dlc_to_len dlc true in
        if ltb (length buf) (header + len)
        then none
        else (let id = split_gvret_id (u32_le_at buf 6) in
            some (
              frame (u32_le_at buf 2) (bit_and (bus_dlc / 16) 0x0F) id.0 id.1 dlc
                  (slice buf header len),
              drop (header + len) buf,
            )))

-- The length of a fixed reply and how it is read, by opcode.
unfoldable pub fixed_reply : ℕ → Option (ℕ × (List ℕ → DeviceMessage))
fixed_reply op =
    if op == op_timebase
    then some (6, λ b. timebase (u32_le_at b 2))
    else if op == op_canbus_params
    then some (
      12,
      λ b.
          canbus_params (not (bit_and (at b 2) 1 == 0)) (not (bit_and (at b 7) 1 == 0))
            (u32_le_at b 3) (u32_le_at b 8),
    )
    else if op == op_dev_info
    then some (8, λ b. dev_info (u16_from_le (at b 2) (at b 3)) (at b 4) (at b 5) (at b 6) (at b 7))
    else if op == op_keepalive
    then some (4, λ b. keepalive)
    else if op == op_num_buses
    then some (3, λ b. num_buses (at b 2))
    else none

-- The loop's body once the buffer begins with `F1`.
unfoldable pub take_message : List ℕ → Round DeviceMessage
take_message buf =
    if ltb (length buf) 2
    then stop buf
    else if at buf 1 == op_frame
    then elim (take_frame buf) [ none ↦ stop buf | some (m, rest) ↦ go (m ∷ []) rest ]
    else elim (fixed_reply (at buf 1)) [
      | none ↦ go [] (drop 1 buf)
      | some (len, decode) ↦
          if ltb (length buf) len then stop buf else go (decode (take len buf) ∷ []) (drop len buf)
    ]

-- One round of the loop in `feed`.
unfoldable pub next_message : List ℕ → Round DeviceMessage
next_message buf = elim (from_cmd buf) [
  | none ↦ stop (if ltb max_resync_bytes (length buf) then [] else buf)
  | some start ↦ take_message start
]

unfoldable pub feed : DeviceDecoder → List ℕ → DeviceDecoder × List DeviceMessage
feed d chunk = let r = drain next_message (d.buf ++ chunk) in (record { buf = r.1 }, r.0)
