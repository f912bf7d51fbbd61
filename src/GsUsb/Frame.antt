-- ===== src/GsUsb/Frame.antt =====
-- gs_usb.rs: constants, and host frames in their two layouts.
pub mod RoundTrip
use wiretap_lib_rs.Base.{
  ℕ, ◌+◌, ◌-◌, min, bit_and, bit_or, Bool, true, false, not, ◌&&◌, ◌||◌, Option, none, some, List,
  [], ◌∷◌, ◌++◌, length, take, ltb, leb, ◌==◌, if◌then◌else◌,
}
use wiretap_lib_rs.Base.Bytes.{at, slice, resize, u32_to_le, u32_le_at}
use wiretap_lib_rs.Dlc.{dlc_to_len, payload_dlc}
use wiretap_lib_rs.ArbId.{arb_mask_ext}

abbrev pub vid : ℕ
vid = 0x1d50

abbrev pub pids : List ℕ
pids = 0x606f ∷ 0x606d ∷ []

abbrev pub host_format : ℕ
host_format = 0xbeef

abbrev pub echo_id_rx : ℕ
echo_id_rx = 0xFFFF_FFFF

abbrev pub classic_frame_bytes : ℕ
classic_frame_bytes = 20

abbrev pub fd_frame_bytes : ℕ
fd_frame_bytes = 76

abbrev pub flag_fd : ℕ
flag_fd = 0x01

abbrev pub flag_brs : ℕ
flag_brs = 0x02

abbrev pub flag_esi : ℕ
flag_esi = 0x04

abbrev pub id_extended : ℕ
id_extended = 0x8000_0000

abbrev pub id_rtr : ℕ
id_rtr = 0x4000_0000

abbrev pub id_err : ℕ
id_err = 0x2000_0000

pub record HostFrame : Type 0 where
  pub echo_id : ℕ
  pub arb_id : ℕ
  pub extended : Bool
  pub rtr : Bool
  pub error : Bool
  pub channel : ℕ
  pub fd : Bool
  pub brs : Bool
  pub esi : Bool
  pub dlc : ℕ
  pub payload : List ℕ

unfoldable pub transmit : ℕ → Bool → Bool → Bool → Bool → ℕ → List ℕ → HostFrame
transmit arb_id extended rtr fd brs channel payload = record {
  echo_id = 0;
  arb_id = arb_id;
  extended = extended;
  rtr = rtr;
  error = false;
  channel = channel;
  fd = fd;
  brs = brs;
  esi = false;
  dlc = payload_dlc (length payload) fd;
  payload = payload;
}

unfoldable pub is_rx : HostFrame → Bool
is_rx frame = frame.echo_id == echo_id_rx

unfoldable pub wire_len : HostFrame → ℕ
wire_len frame = if frame.fd then fd_frame_bytes else classic_frame_bytes

-- The frame that a long enough buffer holds.
unfoldable pub read_host_frame : List ℕ → HostFrame
read_host_frame bytes =
    let flags = at bytes 10 in
    let dlc = at bytes 8 in
    let fd = (not (bit_and flags flag_fd == 0) || ltb 8 dlc) && leb fd_frame_bytes (length bytes) in
    let raw_id = u32_le_at bytes 4 in
    let len = min (dlc_to_len dlc fd) (if fd then 64 else 8) in
    record {
      echo_id = u32_le_at bytes 0;
      arb_id = bit_and raw_id arb_mask_ext;
      extended = not (bit_and raw_id id_extended == 0);
      rtr = not (bit_and raw_id id_rtr == 0);
      error = not (bit_and raw_id id_err == 0);
      channel = at bytes 9;
      fd = fd;
      brs = fd && not (bit_and flags flag_brs == 0);
      esi = fd && not (bit_and flags flag_esi == 0);
      dlc = dlc;
      payload = slice bytes 12 len;
    }

unfoldable pub parse_host_frame : List ℕ → Option HostFrame
parse_host_frame bytes =
    if ltb (length bytes) classic_frame_bytes then none else some (read_host_frame bytes)

unfoldable pub raw_id : HostFrame → ℕ
raw_id frame =
    let low = bit_and frame.arb_id arb_mask_ext in
    let with_extended = if frame.extended then bit_or low id_extended else low in
    let with_rtr = if frame.rtr then bit_or with_extended id_rtr else with_extended in
    if frame.error then bit_or with_rtr id_err else with_rtr

unfoldable pub flags_byte : HostFrame → ℕ
flags_byte frame =
    if frame.fd
    then bit_or (bit_or flag_fd (if frame.brs then flag_brs else 0))
        (if frame.esi then flag_esi else 0)
    else 0

-- The whole layout: what is not written stays zero.
unfoldable pub encode_host_frame_into : List ℕ → HostFrame → List ℕ
encode_host_frame_into out frame =
    let wire = wire_len frame in
    let len = min (length frame.payload) (wire - 12) in
    out
    ++ (u32_to_le frame.echo_id
        ++ (u32_to_le (raw_id frame)
            ++ (bit_and frame.dlc 0x0F
                ∷ frame.channel
                ∷ flags_byte frame
                ∷ 0
                ∷ resize (wire - 12) (take len frame.payload))))

unfoldable pub encode_host_frame : HostFrame → List ℕ
unfolding encode_host_frame_into
encode_host_frame = encode_host_frame_into []
