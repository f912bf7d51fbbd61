-- ===== src/Gvret/Encode.antt =====
-- gvret.rs: what either end writes.
use wiretap_lib_rs.Base.{
  ℕ, ◌-◌, ◌*◌, ◌%◌, min, bit_and, bit_or, Bool, List, [], ◌∷◌, ◌++◌, length, take, replicate,
  get_or, ltb, if◌then◌else◌, of_bool,
}
use wiretap_lib_rs.Base.Bytes.{u16_to_le, u32_to_le}
use wiretap_lib_rs.Dlc.{dlc_to_len, payload_dlc}
use wiretap_lib_rs.Gvret.Ids.{
  cmd, op_frame, op_timebase, op_canbus_params, op_dev_info, op_keepalive, op_num_buses,
  make_gvret_id,
}

abbrev pub max_frame_bytes : ℕ
max_frame_bytes = 76

abbrev pub max_transmit_bytes : ℕ
max_transmit_bytes = 72

unfoldable pub encode_dev_info : List ℕ
encode_dev_info = (cmd ∷ op_dev_info ∷ []) ++ (u16_to_le 400 ++ (1 ∷ 0 ∷ 0 ∷ 0 ∷ []))

-- Bus `i` of the two that the reply describes.
unfoldable pub encode_bus : ℕ → List ℕ → ℕ → List ℕ
encode_bus bus_count speeds i =
    let enabled = ltb i bus_count in
    let speed = if enabled then get_or speeds i 0 else 0 in of_bool enabled ∷ u32_to_le speed

unfoldable pub encode_canbus_params : ℕ → List ℕ → List ℕ
encode_canbus_params bus_count speeds =
    (cmd ∷ op_canbus_params ∷ [])
    ++ (encode_bus bus_count speeds 0 ++ encode_bus bus_count speeds 1)

unfoldable pub encode_num_buses : ℕ → List ℕ
encode_num_buses n = cmd ∷ op_num_buses ∷ n ∷ []

unfoldable pub encode_timebase : ℕ → List ℕ
encode_timebase us = (cmd ∷ op_timebase ∷ []) ++ u32_to_le us

unfoldable pub encode_keepalive : List ℕ
encode_keepalive = cmd ∷ op_keepalive ∷ 0xDE ∷ 0xAD ∷ []

-- The payload that a frame carries: cut to what its length code names, and padded up to it.
unfoldable pub carried : List ℕ → Bool → List ℕ
carried payload is_fd =
    let len = dlc_to_len (payload_dlc (length payload) is_fd) is_fd in
    let taken = min len (length payload) in take taken payload ++ replicate (len - taken) 0

unfoldable pub encode_frame_into : List ℕ → ℕ → ℕ → Bool → ℕ → List ℕ → Bool → List ℕ
encode_frame_into out ts_us arb_id extended bus payload is_fd =
    let dlc = payload_dlc (length payload) is_fd in
    out
    ++ ((cmd ∷ op_frame ∷ [])
        ++ (u32_to_le ts_us
            ++ (u32_to_le (make_gvret_id arb_id extended)
                ++ (bit_or (bit_and bus 0x0F * 16 % 256) (bit_and dlc 0x0F)
                    ∷ (carried payload is_fd ++ (0x00 ∷ []))))))

unfoldable pub encode_frame : ℕ → ℕ → Bool → ℕ → List ℕ → Bool → List ℕ
unfolding encode_frame_into
encode_frame = encode_frame_into []

unfoldable pub encode_transmit_into : List ℕ → ℕ → Bool → ℕ → List ℕ → List ℕ
encode_transmit_into out arb_id extended bus payload =
    let taken = min (length payload) 64 in
    out
    ++ ((cmd ∷ op_frame ∷ [])
        ++ (u32_to_le (make_gvret_id arb_id extended)
            ++ (bus ∷ (taken % 256) ∷ take taken payload)))

unfoldable pub encode_transmit : ℕ → Bool → ℕ → List ℕ → List ℕ
unfolding encode_transmit_into
encode_transmit = encode_transmit_into []
