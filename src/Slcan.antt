-- ===== src/Slcan.antt =====
-- crates/wiretap-protocol/src/slcan.rs: the ASCII line protocol. A line is the list of its bytes.
pub mod Lines
pub mod Version
pub mod RoundTrip
pub mod Stream
pub mod Segments
mod Tests
use wiretap_lib_rs.Base.{
  ℕ, zero, suc, ◌+◌, ◌-◌, ◌*◌, ◌/◌, ◌%◌, ◌^◌, min, bit_and, Bool, true, false, not, ◌&&◌, ◌||◌,
  Option, none, some, List, [], ◌∷◌, ◌++◌, length, take, drop, get_or, ltb, leb, ◌==◌,
  if◌then◌else◌, ◌>>=◌,
}
use wiretap_lib_rs.ArbId.{arb_mask_ext, arb_mask_std}
use wiretap_lib_rs.Dlc.{dlc_to_len, payload_dlc}

abbrev pub bell : ℕ
bell = 0x07

abbrev pub max_line_bytes : ℕ
max_line_bytes = 512

abbrev pub max_frame_bytes : ℕ
max_frame_bytes = 139

abbrev pub carriage_return : ℕ
carriage_return = 13

-- A command of a letter and a digit, with its terminator.
abbrev pub command : ℕ → ℕ → List ℕ
command letter digit = letter ∷ digit ∷ carriage_return ∷ []

abbrev pub close : List ℕ
close = b'C' ∷ carriage_return ∷ []

abbrev pub open_channel : List ℕ
open_channel = b'O' ∷ carriage_return ∷ []

abbrev pub mode_normal : List ℕ
mode_normal = command b'M' b'0'

abbrev pub mode_silent : List ℕ
mode_silent = command b'M' b'1'

abbrev pub query_version : List ℕ
query_version = b'V' ∷ carriage_return ∷ []

abbrev pub query_hw_version : List ℕ
query_hw_version = b'v' ∷ carriage_return ∷ []

abbrev pub query_serial : List ℕ
query_serial = b'N' ∷ carriage_return ∷ []

abbrev pub nominal_bitrates : List (ℕ × List ℕ)
nominal_bitrates =
    (10_000, command b'S' b'0')
    ∷ (20_000, command b'S' b'1')
    ∷ (50_000, command b'S' b'2')
    ∷ (100_000, command b'S' b'3')
    ∷ (125_000, command b'S' b'4')
    ∷ (250_000, command b'S' b'5')
    ∷ (500_000, command b'S' b'6')
    ∷ (750_000, command b'S' b'7')
    ∷ (1_000_000, command b'S' b'8')
    ∷ []

abbrev pub data_bitrates : List (ℕ × List ℕ)
data_bitrates =
    (500_000, command b'Y' b'0')
    ∷ (1_000_000, command b'Y' b'1')
    ∷ (2_000_000, command b'Y' b'2')
    ∷ (4_000_000, command b'Y' b'4')
    ∷ (5_000_000, command b'Y' b'5')
    ∷ (8_000_000, command b'Y' b'8')
    ∷ []

unfoldable pub lookup : List (ℕ × List ℕ) → ℕ → Option (List ℕ)
lookup [] bps = none
lookup (entry ∷ table) bps = if entry.0 == bps then some entry.1 else lookup table bps

unfoldable pub bitrate_command : ℕ → Option (List ℕ)
bitrate_command bps = lookup nominal_bitrates bps

unfoldable pub data_bitrate_command : ℕ → Option (List ℕ)
data_bitrate_command bps = lookup data_bitrates bps

pub record Frame : Type 0 where
  pub arb_id : ℕ
  pub extended : Bool
  pub rtr : Bool
  pub fd : Bool
  pub brs : Bool
  pub dlc : ℕ
  pub payload : List ℕ

unfoldable pub data_frame : ℕ → Bool → Bool → Bool → List ℕ → Frame
data_frame arb_id extended fd brs payload = record {
  arb_id = arb_id;
  extended = extended;
  rtr = false;
  fd = fd;
  brs = brs;
  dlc = payload_dlc (length payload) fd;
  payload = payload;
}

unfoldable pub remote : ℕ → Bool → ℕ → Frame
remote arb_id extended dlc = record {
  arb_id = arb_id;
  extended = extended;
  rtr = true;
  fd = false;
  brs = false;
  dlc = min dlc 8;
  payload = [];
}

abbrev pub to_ascii_uppercase : ℕ → ℕ
to_ascii_uppercase c = if leb b'a' c && leb c b'z' then c - 32 else c

unfoldable pub prefix : Frame → ℕ
prefix frame =
    let c =
      if frame.rtr then b'r' else if frame.fd then (if frame.brs then b'b' else b'd') else b't' in
    if frame.extended then to_ascii_uppercase c else c

-- What a prefix says: extended, rtr, fd, brs.
unfoldable pub flags_of : ℕ → Option (Bool × Bool × Bool × Bool)
flags_of c =
    if c == b't'
    then some (false, false, false, false)
    else if c == b'T'
    then some (true, false, false, false)
    else if c == b'r'
    then some (false, true, false, false)
    else if c == b'R'
    then some (true, true, false, false)
    else if c == b'd'
    then some (false, false, true, false)
    else if c == b'D'
    then some (true, false, true, false)
    else if c == b'b'
    then some (false, false, true, true)
    else if c == b'B'
    then some (true, false, true, true)
    else none

-- `to_digit(16)`.
unfoldable pub to_digit : ℕ → Option ℕ
to_digit c =
    if leb b'0' c && leb c b'9'
    then some (c - b'0')
    else if leb b'a' c && leb c b'f'
    then some (c - b'a' + 10)
    else if leb b'A' c && leb c b'F'
    then some (c - b'A' + 10)
    else none

-- The value of digits, most significant first, behind the value `acc` of those before.
unfoldable pub hex_value : ℕ → List ℕ → Option ℕ
hex_value acc [] = some acc
hex_value acc (c ∷ cs) = elim (to_digit c) [ none ↦ none | some d ↦ hex_value (acc * 16 + d) cs ]

-- `from_str_radix(…, 16)` of an unsigned type: a plus sign may stand before the digits. No more than
-- eight digits are read with it, so the value fits.
unfoldable pub from_hex : List ℕ → Option ℕ
from_hex [] = none
from_hex (c ∷ []) = hex_value 0 (c ∷ [])
from_hex (c ∷ d ∷ cs) = if c == b'+' then hex_value 0 (d ∷ cs) else hex_value 0 (c ∷ d ∷ cs)

-- `b.get(i..i + n)`.
unfoldable pub get_range : List ℕ → ℕ → ℕ → Option (List ℕ)
get_range b i n = if leb (i + n) (length b) then some (take n (drop i b)) else none

-- The bytes of a payload, from its pairs of digits.
unfoldable pub parse_pairs : List ℕ → Option (List ℕ)
parse_pairs [] = some []
parse_pairs (h ∷ []) = some []
parse_pairs (h ∷ l ∷ rest) = do
  byte ← from_hex (h ∷ l ∷ [])
  bytes ← parse_pairs rest
  some (byte ∷ bytes)

-- The payload of a line, whose length code is `dlc`, from index `i` on.
unfoldable pub parse_payload : List ℕ → ℕ → ℕ → Bool → Bool → Option (List ℕ)
parse_payload b i dlc rtr fd =
    if rtr
    then some []
    else elim (get_range b i (dlc_to_len dlc fd * 2)) [ none ↦ none | some hex ↦ parse_pairs hex ]

-- What stands behind the prefix.
unfoldable pub parse_body : List ℕ → Bool → Bool → Bool → Bool → Option Frame
parse_body b extended rtr fd brs =
    let id_end = 1 + (if extended then 8 else 3) in
    do
      id_digits ← get_range b 1 (if extended then 8 else 3)
      arb_id ← from_hex id_digits
      code ← get_range b id_end 1
      dlc ← to_digit (get_or code 0 0)
      accepted ← if not fd && ltb 8 dlc then none else some dlc
      payload ← parse_payload b (id_end + 1) accepted rtr fd
      some (record {
        arb_id = arb_id;
        extended = extended;
        rtr = rtr;
        fd = fd;
        brs = brs;
        dlc = accepted;
        payload = payload;
      })

unfoldable pub parse_frame : List ℕ → Option Frame
parse_frame [] = none
parse_frame (c ∷ cs) = elim (flags_of c) [
  | none ↦ none
  | some (extended, rtr, fd, brs) ↦ parse_body (c ∷ cs) extended rtr fd brs
]

abbrev pub hex_digits : List ℕ
hex_digits =
    b'0' ∷ b'1' ∷ b'2' ∷ b'3' ∷ b'4' ∷ b'5' ∷ b'6' ∷ b'7' ∷ b'8' ∷ b'9' ∷ b'A' ∷ b'B' ∷ b'C' ∷ b'D'
    ∷ b'E' ∷ b'F' ∷ []

unfoldable pub hex_char : ℕ → ℕ
hex_char n = get_or hex_digits (bit_and n 0x0F) 0

-- The lowest `digits` digits of an id, most significant first.
unfoldable pub id_chars : ℕ → ℕ → List ℕ
id_chars id zero = []
id_chars id (suc shift) = hex_char (id / 2 ^ (shift * 4)) ∷ id_chars id shift

-- The digits of `len` bytes of the payload from index `i` on, zero where it has ended.
unfoldable pub payload_chars : List ℕ → ℕ → ℕ → List ℕ
payload_chars payload i zero = []
payload_chars payload i (suc len) =
    let byte = get_or payload i 0 in
    hex_char (byte / 16) ∷ hex_char byte ∷ payload_chars payload (i + 1) len

-- A line without its terminator.
unfoldable pub line_of : Frame → List ℕ
line_of frame =
    let len = if frame.rtr then 0 else dlc_to_len frame.dlc frame.fd in
    let id =
      if frame.extended
      then bit_and frame.arb_id arb_mask_ext
      else bit_and frame.arb_id arb_mask_std in
    let digits = if frame.extended then 8 else 3 in
    prefix frame ∷ (id_chars id digits ++ (hex_char frame.dlc ∷ payload_chars frame.payload 0 len))

unfoldable pub encode_frame_into : List ℕ → Frame → List ℕ
encode_frame_into out frame = out ++ (line_of frame ++ (carriage_return ∷ []))

unfoldable pub encode_frame : Frame → List ℕ
encode_frame frame = encode_frame_into [] frame
