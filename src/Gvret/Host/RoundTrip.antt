-- ===== src/Gvret/Host/RoundTrip.antt =====
-- gvret.rs: the device end's encoders against `DeviceDecoder`.
use wiretap_lib_rs.Base.{
  ℕ, ◌+◌, ◌-◌, ◌*◌, ◌/◌, ◌%◌, ◌<◌, min, bit_and, bit_or, Bool, true, false, ◌≡◌, refl, ap, ◌∙◌,
  some, List, [], ◌∷◌, ◌++◌, map, flatten, append_assoc, arith, length, take, replicate, All,
  length-append, length-take, length-replicate, take_exact, drop_exact, drop-drop, get_or, ltb,
  if◌then◌else◌, of_bool, not, ◌==◌,
}
use wiretap_lib_rs.Base.Bits.{bit_and_mask, bit_or_disjoint}
use wiretap_lib_rs.Base.Bytes.{IsU32, u32_le_round, u32_from_le}
use wiretap_lib_rs.Base.Framing.{go, drain, drain_go, drain_stop, outputs_by_progress}
use wiretap_lib_rs.Dlc.{dlc_to_len, payload_dlc}
use wiretap_lib_rs.Dlc.Laws.{payload_dlc-fits, dlc_to_len_small}
use wiretap_lib_rs.Gvret.Ids.{
  cmd, op_frame, split_gvret_id, make_gvret_id, id_span, split-make_gvret_id, make_gvret_id-IsU32,
}
use wiretap_lib_rs.Gvret.Encode.{
  encode_frame, encode_frame_into, carried, encode_dev_info, encode_canbus_params, encode_bus,
  encode_num_buses, encode_timebase, encode_keepalive,
}
use wiretap_lib_rs.Gvret.Host.{
  DeviceMessage, frame, timebase, canbus_params, dev_info, keepalive, num_buses, new, from_cmd,
  take_frame, fixed_reply, take_message, next_message, feed,
}
use wiretap_lib_rs.Gvret.Host.Payload.{
  padded, wire_length, wire_code, payload_dlc-wire_code, carried-padded,
}
use wiretap_lib_rs.Gvret.Host.Stream.{
  messages, messages-flatten, next_message-IsFraming, progress_by_start,
}

-- The byte that packs the bus and the length code.
abbrev bus_dlc : ℕ → ℕ → ℕ
bus_dlc bus dlc = bit_or (bit_and bus 0x0F * 16 % 256) (bit_and dlc 0x0F)

bus_dlc-sum : (bus dlc : ℕ) → dlc < 16 → bus_dlc bus dlc ≡ bus % 16 * 16 + dlc
bus_dlc-sum bus dlc h =
    let low : bit_and dlc 0x0F ≡ dlc = omega (arith, bit_and_mask 4 dlc) in
    let high : bit_and bus 0x0F * 16 % 256 ≡ bus % 16 * 16 = omega (arith, bit_and_mask 4 bus) in
    rw (low, high) (bit_or_disjoint 4 (bus % 16) dlc h)

bus_dlc_parts :
    (bus dlc : ℕ)
    → dlc < 16
    → (bit_and (bus_dlc bus dlc) 0x0F ≡ dlc) × (bit_and (bus_dlc bus dlc / 16) 0x0F ≡ bus % 16)
bus_dlc_parts bus dlc h = (
  omega (arith, bus_dlc-sum bus dlc h, bit_and_mask 4 (bus_dlc bus dlc)),
  omega (arith, bus_dlc-sum bus dlc h, bit_and_mask 4 (bus_dlc bus dlc / 16)),
)

-- The code of a frame is under 16, and read as an FD code it names the length carried.
code_read_as_fd :
    (len : ℕ) (fd : Bool)
    → (payload_dlc len fd < 16)
      × (dlc_to_len (payload_dlc len fd) true ≡ dlc_to_len (payload_dlc len fd) fd)
code_read_as_fd len true = (omega (arith, payload_dlc-fits len true), refl)
code_read_as_fd len false = (
  omega (arith, payload_dlc-fits len false),
  omega (
    arith,
    dlc_to_len_small (payload_dlc len false) true (omega (arith, payload_dlc-fits len false)),
    dlc_to_len_small (payload_dlc len false) false (omega (arith, payload_dlc-fits len false)),
  ),
)

length-carried :
    (payload : List ℕ) (fd : Bool)
    → length (carried payload fd) ≡ dlc_to_len (payload_dlc (length payload) fd) fd
unfolding carried
length-carried payload fd = omega (
  arith,
  length-append (take taken payload) (replicate (len - taken) 0),
  length-take taken payload,
  length-replicate {A = ℕ} (len - taken) 0,
)
  where
    len : ℕ
    len = dlc_to_len (payload_dlc (length payload) fd) fd

    taken : ℕ
    taken = min len (length payload)

take_frame-header :
    (t0 t1 t2 t3 i0 i1 i2 i3 b : ℕ) (body more : List ℕ)
    → length body ≡ dlc_to_len (bit_and b 0x0F) true
    → take_frame (cmd ∷ op_frame ∷ t0 ∷ t1 ∷ t2 ∷ t3 ∷ i0 ∷ i1 ∷ i2 ∷ i3 ∷ b ∷ (body ++ more)) ≡ (
        let id = split_gvret_id (u32_from_le i0 i1 i2 i3) in
        some (
          frame (u32_from_le t0 t1 t2 t3) (bit_and (b / 16) 0x0F) id.0 id.1 (bit_and b 0x0F) body,
          more,
        ))
unfolding take_frame
take_frame-header t0 t1 t2 t3 i0 i1 i2 i3 b body more h = ground (
  arith,
  length-append body more,
  take_exact body more (dlc_to_len (bit_and b 0x0F) true),
  drop_exact body more (dlc_to_len (bit_and b 0x0F) true),
  drop-drop 11 (dlc_to_len (bit_and b 0x0F) true)
      (cmd ∷ op_frame ∷ t0 ∷ t1 ∷ t2 ∷ t3 ∷ i0 ∷ i1 ∷ i2 ∷ i3 ∷ b ∷ (body ++ more)),
)

-- What the device end has put on the wire, one encoder call for each.
pub data Sent : Type 0 where
  captured : (ts_us arb_id : ℕ) (extended : Bool) (bus : ℕ) (payload : List ℕ) (is_fd : Bool) → Sent
  sent_timebase : ℕ → Sent
  sent_canbus_params : ℕ → List ℕ → Sent
  sent_dev_info : Sent
  sent_keepalive : Sent
  sent_num_buses : ℕ → Sent

abbrev pub sent_bytes : Sent → List ℕ
sent_bytes (captured ts_us arb_id extended bus payload is_fd) =
    encode_frame ts_us arb_id extended bus payload is_fd
sent_bytes (sent_timebase us) = encode_timebase us
sent_bytes (sent_canbus_params bus_count speeds) = encode_canbus_params bus_count speeds
sent_bytes sent_dev_info = encode_dev_info
sent_bytes sent_keepalive = encode_keepalive
sent_bytes (sent_num_buses n) = encode_num_buses n

-- Bus `i` has a speed if the reply says that it is enabled.
abbrev speed_of : ℕ → List ℕ → ℕ → ℕ
speed_of bus_count speeds i = if ltb i bus_count then get_or speeds i 0 else 0

-- What the host is to make of it: the id cut to its width, the low four bits of the bus, the code of
-- the length that the payload takes, and the payload, cut or padded with zeros to that length.
abbrev pub heard : Sent → DeviceMessage
heard (captured ts_us arb_id extended bus payload is_fd) =
    let n = length payload in
    frame ts_us (bus % 16) (arb_id % id_span extended) extended (wire_code n is_fd)
      (padded (wire_length n is_fd) payload)
heard (sent_timebase us) = timebase us
heard (sent_canbus_params bus_count speeds) =
    canbus_params (ltb 0 bus_count) (ltb 1 bus_count) (speed_of bus_count speeds 0)
      (speed_of bus_count speeds 1)
heard sent_dev_info = dev_info 400 1 0 0 0
heard sent_keepalive = keepalive
heard (sent_num_buses n) = num_buses n

-- The arguments fit the encoders' types.
abbrev pub IsSendable : Sent → Type 0
IsSendable (captured ts_us arb_id extended bus payload is_fd) = IsU32 ts_us
IsSendable (sent_timebase us) = IsU32 us
IsSendable (sent_canbus_params bus_count speeds) =
    IsU32 (get_or speeds 0 0) × IsU32 (get_or speeds 1 0)
IsSendable sent_dev_info = Unit
IsSendable sent_keepalive = Unit
IsSendable (sent_num_buses n) = Unit

-- The checksum byte behind a frame, which no decoder takes.
abbrev trailer : Sent → List ℕ
trailer (captured _ _ _ _ _ _) = 0 ∷ []
trailer _ = []

captured-next :
    (ts_us arb_id : ℕ) (extended : Bool) (bus : ℕ) (payload : List ℕ) (is_fd : Bool) (more : List ℕ)
    → IsU32 ts_us
    → next_message (encode_frame ts_us arb_id extended bus payload is_fd ++ more)
      ≡ go (heard (captured ts_us arb_id extended bus payload is_fd) ∷ []) (0 ∷ more)
unfolding next_message from_cmd take_message encode_frame encode_frame_into
captured-next ts_us arb_id extended bus payload is_fd more h =
    let id = make_gvret_id arb_id extended in
    let dlc = payload_dlc (length payload) is_fd in
    let (small, same) = code_read_as_fd (length payload) is_fd in
    let (low, high) = bus_dlc_parts bus dlc small in
    rw (← payload_dlc-wire_code (length payload) is_fd, ← carried-padded payload is_fd)
      (ground (
        arith,
        append_assoc (carried payload is_fd) (0 ∷ []) more,
        u32_le_round ts_us h,
        u32_le_round id (make_gvret_id-IsU32 arb_id extended),
        split-make_gvret_id arb_id extended,
        low,
        high,
        same,
        length-carried payload is_fd,
        take_frame-header (ts_us % 256) (ts_us / 256 % 256) (ts_us / 65536 % 256)
            (ts_us / 16777216 % 256) (id % 256) (id / 256 % 256) (id / 65536 % 256)
            (id / 16777216 % 256) (bus_dlc bus dlc) (carried payload is_fd) (0 ∷ more),
      ))

bit_and-of_bool : (b : Bool) → not (bit_and (of_bool b) 1 == 0) ≡ b
bit_and-of_bool true = refl
bit_and-of_bool false = refl

sent-next :
    (s : Sent) (more : List ℕ)
    → IsSendable s
    → next_message (sent_bytes s ++ more) ≡ go (heard s ∷ []) (trailer s ++ more)
unfolding next_message from_cmd take_message fixed_reply
sent-next (captured ts_us arb_id extended bus payload is_fd) more h =
    captured-next ts_us arb_id extended bus payload is_fd more h
sent-next (sent_timebase us) more h = unfold encode_timebase in ground (arith, u32_le_round us h)
sent-next (sent_canbus_params bus_count speeds) more h =
    unfold encode_canbus_params encode_bus in
    ground (
      arith,
      u32_le_round (speed_of bus_count speeds 0),
      u32_le_round (speed_of bus_count speeds 1),
      bit_and-of_bool (ltb 0 bus_count),
      bit_and-of_bool (ltb 1 bus_count),
    )
sent-next sent_dev_info more h = unfold encode_dev_info in ground arith
sent-next sent_keepalive more h = unfold encode_keepalive in ground arith
sent-next (sent_num_buses n) more h = unfold encode_num_buses in ground arith

skip_trailer :
    (s : Sent) (more : List ℕ)
    → (drain next_message (trailer s ++ more)).0 ≡ (drain next_message more).0
unfolding from_cmd
skip_trailer (captured _ _ _ _ _ _) more =
    outputs_by_progress next_message next_message-IsFraming (0 ∷ more) more
      (progress_by_start (0 ∷ more) more refl)
skip_trailer _ more = refl

drain-sent :
    (sents : List Sent)
    → All IsSendable sents
    → (drain next_message (flatten (map sent_bytes sents))).0 ≡ map heard sents
unfolding flatten
drain-sent [] h =
    ap (λ r. r.0)
      (drain_stop next_message next_message-IsFraming [] [] next_message-IsFraming.at_end)
drain-sent (s ∷ sents) (h, hs) =
    let more = flatten (map sent_bytes sents) in
    rw
      (drain_go next_message next_message-IsFraming (sent_bytes s ++ more) (trailer s ++ more)
        (heard s ∷ []) (sent-next s more h))
      (ap (λ tail. heard s ∷ tail) (skip_trailer s more ∙ drain-sent sents hs))

-- A host that reads what the device end's encoders wrote, in whatever pieces it arrives, gets one
-- message for each call, in order, with the values that were sent: ids and buses cut to their
-- width, and a payload cut to 8 bytes, or 64, and padded with zeros to a length that has a code.
pub messages-sent :
    (sents : List Sent) (chunks : List (List ℕ))
    → All IsSendable sents
    → flatten chunks ≡ flatten (map sent_bytes sents)
    → messages new chunks ≡ map heard sents
unfolding feed
messages-sent sents chunks h e =
    messages-flatten chunks ∙ ap (λ all. (drain next_message all).0) e ∙ drain-sent sents h
