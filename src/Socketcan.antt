-- ===== src/Socketcan.antt =====
-- crates/wiretap-protocol/src/socketcan.rs: the kernel's two CAN frame layouts. The byte order is the
-- machine's; `little` says which it is.
pub mod RoundTrip
mod Tests
use wiretap_lib_rs.Base.{
  ℕ, ◌+◌, ◌-◌, ◌%◌, min, bit_and, bit_or, Bool, true, false, not, Option, none, some, List, [], ◌∷◌,
  ◌++◌, length, take, ltb, leb, ◌==◌, if◌then◌else◌,
}
use wiretap_lib_rs.Base.Bytes.{at, slice, resize, u32_to_le, u32_to_be, u32_from_le, u32_from_be}
use wiretap_lib_rs.ArbId.{arb_mask_ext, arb_mask_std}

abbrev pub classic_frame_bytes : ℕ
classic_frame_bytes = 16

abbrev pub fd_frame_bytes : ℕ
fd_frame_bytes = 72

abbrev pub can_eff_flag : ℕ
can_eff_flag = 0x8000_0000

abbrev pub can_rtr_flag : ℕ
can_rtr_flag = 0x4000_0000

abbrev pub can_err_flag : ℕ
can_err_flag = 0x2000_0000

abbrev pub can_eff_mask : ℕ
can_eff_mask = arb_mask_ext

abbrev pub can_sff_mask : ℕ
can_sff_mask = arb_mask_std

abbrev pub fd_flags_brs : ℕ
fd_flags_brs = 0x01

abbrev pub fd_flags_esi : ℕ
fd_flags_esi = 0x02

pub record SplitId : Type 0 where
  pub arb_id : ℕ
  pub extended : Bool
  pub rtr : Bool
  pub error : Bool

unfoldable pub split_can_id : ℕ → SplitId
split_can_id raw =
    let extended = not (bit_and raw can_eff_flag == 0) in
    record {
      arb_id = bit_and raw (if extended then can_eff_mask else can_sff_mask);
      extended = extended;
      rtr = not (bit_and raw can_rtr_flag == 0);
      error = not (bit_and raw can_err_flag == 0);
    }

unfoldable pub make_can_id : ℕ → Bool → Bool → ℕ
make_can_id arb_id extended rtr =
    let raw =
      if extended
      then bit_or (bit_and arb_id can_eff_mask) can_eff_flag
      else bit_and arb_id can_sff_mask in
    if rtr then bit_or raw can_rtr_flag else raw

pub record Frame : Type 0 where
  pub arb_id : ℕ
  pub extended : Bool
  pub rtr : Bool
  pub error : Bool
  pub fd : Bool
  pub brs : Bool
  pub esi : Bool
  pub payload : List ℕ

-- What a payload is cut to.
abbrev pub payload_limit : Bool → Bool → ℕ
payload_limit true fd = 0
payload_limit false true = 64
payload_limit false false = 8

unfoldable pub new_frame : ℕ → Bool → Bool → Bool → Bool → List ℕ → Frame
new_frame arb_id extended rtr fd brs payload = record {
  arb_id = arb_id;
  extended = extended;
  rtr = rtr;
  error = false;
  fd = fd;
  brs = brs;
  esi = false;
  payload = take (payload_limit rtr fd) payload;
}

unfoldable pub wire_len : Frame → ℕ
wire_len frame = if frame.fd then fd_frame_bytes else classic_frame_bytes

-- The id word of a frame, its error flag included.
unfoldable pub raw_id : Frame → ℕ
raw_id frame =
    bit_or (make_can_id frame.arb_id frame.extended frame.rtr)
      (if frame.error then can_err_flag else 0)

-- The flags byte, which a classic frame leaves zero.
unfoldable pub flags_byte : Frame → ℕ
flags_byte frame =
    if frame.fd
    then bit_or (if frame.brs then fd_flags_brs else 0) (if frame.esi then fd_flags_esi else 0)
    else 0

module _ (little : Bool) where
  abbrev pub u32_to_ne : ℕ → List ℕ
  u32_to_ne n = if little then u32_to_le n else u32_to_be n

  abbrev pub u32_from_ne : ℕ → ℕ → ℕ → ℕ → ℕ
  u32_from_ne a b c d = if little then u32_from_le a b c d else u32_from_be a b c d

  -- The frame that a long enough buffer holds.
  unfoldable pub read_frame : List ℕ → Frame
  read_frame bytes =
      let fd = leb fd_frame_bytes (length bytes) in
      let id = split_can_id (u32_from_ne (at bytes 0) (at bytes 1) (at bytes 2) (at bytes 3)) in
      let flags = if fd then at bytes 5 else 0 in
      let len = min (at bytes 4) (if fd then 64 else 8) in
      record {
        arb_id = id.arb_id;
        extended = id.extended;
        rtr = id.rtr;
        error = id.error;
        fd = fd;
        brs = not (bit_and flags fd_flags_brs == 0);
        esi = not (bit_and flags fd_flags_esi == 0);
        payload = slice bytes 8 len;
      }

  unfoldable pub parse_frame : List ℕ → Option Frame
  unfolding read_frame
  parse_frame bytes =
      if ltb (length bytes) classic_frame_bytes then none else some (read_frame bytes)

  -- The whole layout: what is not written stays zero.
  unfoldable pub encode_frame_into : List ℕ → Frame → List ℕ
  encode_frame_into out frame =
      let wire = wire_len frame in
      let len = min (length frame.payload) (wire - 8) in
      out
      ++ (u32_to_ne (raw_id frame)
          ++ ((len % 256) ∷ flags_byte frame ∷ 0 ∷ 0 ∷ resize (wire - 8) (take len frame.payload)))

  unfoldable pub encode_frame : Frame → List ℕ
  unfolding encode_frame_into
  encode_frame = encode_frame_into []
