-- ===== src/Gvret/Server.antt =====
-- gvret.rs, the device end: `Decoder` reads what one client sends, once it has shaken hands.
pub mod Handshake
pub mod Stream
pub mod Commands
use wiretap_lib_rs.Base.{
  ℕ, ◌+◌, ◌-◌, min, Bool, true, false, not, Option, none, some, List, [], ◌∷◌, ◌++◌, ◌&&◌, length,
  drop, ltb, ◌==◌, if◌then◌else◌,
}
use wiretap_lib_rs.Base.Bytes.{at, slice, u32_le_at}
use wiretap_lib_rs.Base.Framing.{Round, stop, go, drain}
use wiretap_lib_rs.Gvret.Ids.{
  cmd, op_frame, op_timebase, op_canbus_params, op_dev_info, op_keepalive, op_num_buses,
  split_gvret_id,
}

pub data ClientCommand : Type 0 where
  transmit : (bus arb_id : ℕ) (extended : Bool) (payload : List ℕ) → ClientCommand
  timebase canbus_params dev_info keepalive num_buses : ClientCommand

pub record Decoder : Type 0 where
  pub binary : Bool
  pub buf : List ℕ

abbrev pub new : Decoder
new = record { binary = false; buf = [] }

abbrev pub is_sync : ℕ → ℕ → Bool
is_sync a b = a == 0xE7 && b == 0xE7

-- The scan at index `i`, over what the buffer holds from there on.
unfoldable pub scan : List ℕ → ℕ → ℕ → Bool → ℕ × Bool
scan [] i cut binary = (cut, binary)
scan (a ∷ []) i cut binary = (cut, binary)
scan (a ∷ (b ∷ rest)) i cut binary = elim (is_sync a b) [
  | true ↦ scan rest (i + 2) (i + 2) true
  | false ↦ scan (b ∷ rest) (i + 1) cut binary
]

unfoldable pub scan_for_handshake : Decoder → List ℕ → Decoder
scan_for_handshake d chunk =
    let from = length d.buf - 1 in
    let buf = d.buf ++ chunk in
    let r = scan (drop from buf) from 0 d.binary in record { binary = r.1; buf = drop r.0 buf }

unfoldable pub take_transmit : List ℕ → Option (ClientCommand × List ℕ)
take_transmit buf =
    if ltb (length buf) 8
    then none
    else (let declared = at buf 7 in
        let need = 8 + declared in
        if ltb (length buf) need
        then none
        else (let id = split_gvret_id (u32_le_at buf 2) in
            some (transmit (at buf 6) id.0 id.1 (slice buf 8 (min declared 8)), drop need buf)))

-- The bytes from the first `F1` on, or none of them.
unfoldable pub resync : List ℕ → List ℕ
resync [] = []
resync (b ∷ bs) = if b == cmd then b ∷ bs else resync bs

unfoldable pub request : ℕ → List ClientCommand
request op =
    if op == op_timebase
    then timebase ∷ []
    else if op == op_canbus_params
    then canbus_params ∷ []
    else if op == op_dev_info
    then dev_info ∷ []
    else if op == op_keepalive
    then keepalive ∷ []
    else if op == op_num_buses
    then num_buses ∷ []
    else []

-- The loop's body once the buffer has been cut to its first `F1`.
unfoldable pub take_command : List ℕ → Round ClientCommand
take_command buf =
    if ltb (length buf) 2
    then stop buf
    else if at buf 1 == op_frame
    then elim (take_transmit buf) [ none ↦ stop buf | some (c, rest) ↦ go (c ∷ []) rest ]
    else go (request (at buf 1)) (drop 2 buf)

-- One round of the loop in `feed`.
unfoldable pub next_command : List ℕ → Round ClientCommand
next_command buf = take_command (resync buf)

unfoldable pub feed : Decoder → List ℕ → Decoder × List ClientCommand
feed d chunk =
    let s = scan_for_handshake d chunk in
    if s.binary
    then (let r = drain next_command s.buf in (record { binary = true; buf = r.1 }, r.0))
    else (s, [])
