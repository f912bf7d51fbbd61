-- ===== src/GsUsb/Frame/RoundTrip.antt =====
-- gs_usb.rs: host frames, written and read.
use wiretap_lib_rs.Base.{
  ℕ, zero, suc, ◌-◌, ◌/◌, ◌%◌, ◌≤◌, ◌<◌, min, bit_and, bit_or, Bool, true, false, not, ◌≡◌, refl,
  ap, ◌∙◌, none, some, List, [], ◌∷◌, ◌++◌, arith, length, take, drop, take-ge, length-take,
  length-drop, inl, inr, Bool-cases, ltb, ◌==◌, ◌&&◌, ◌||◌, if◌then◌else◌,
}
use wiretap_lib_rs.Base.Bits.{bit_and_mask}
use wiretap_lib_rs.Base.Bytes.{
  slice, IsU32, at, resize, length-resize, u32_le_at, u32_from_le, u32_to_le, u32_le_round,
}
use wiretap_lib_rs.Dlc.{dlc_to_len}
use wiretap_lib_rs.Dlc.Laws.{dlc_to_len-le, capacity, payload_dlc-fits, top_code}
use wiretap_lib_rs.ArbId.Laws.{mask_ext, flagged, flagged_parts, flag_test}
use wiretap_lib_rs.GsUsb.Frame.{
  HostFrame, transmit, wire_len, read_host_frame, parse_host_frame, raw_id, flags_byte,
  encode_host_frame,
}

-- A frame that its layout can carry: a 29-bit id, a 32-bit echo id, a length code of its kind, a
-- payload that the code can carry, and FD flags only on an FD frame.
pub record IsHostFrame (f : HostFrame) : Type 0 where
  pub echo_fits : IsU32 f.echo_id
  pub id_fits : f.arb_id < 0x2000_0000
  pub code_fits : f.dlc ≤ top_code f.fd
  pub payload_fits : length f.payload ≤ dlc_to_len f.dlc f.fd
  pub classic_brs : f.fd ≡ false → f.brs ≡ false
  pub classic_esi : f.fd ≡ false → f.esi ≡ false

-- The same frame with its payload padded to what the code names.
abbrev pub padded : HostFrame → HostFrame
padded f = record f { payload = resize (dlc_to_len f.dlc f.fd) f.payload }

raw_id-flagged :
    (f : HostFrame) → raw_id f ≡ flagged (f.arb_id % 0x2000_0000) f.extended f.rtr f.error
unfolding raw_id flagged
raw_id-flagged f = ground (arith, mask_ext f.arb_id)

-- The parts of the id word.
raw_id_parts :
    (f : HostFrame)
    → f.arb_id < 0x2000_0000
    → IsU32 (raw_id f)
      × (bit_and (raw_id f) 0x1FFF_FFFF ≡ f.arb_id)
      × (not (bit_and (raw_id f) 0x8000_0000 == 0) ≡ f.extended)
      × (not (bit_and (raw_id f) 0x4000_0000 == 0) ≡ f.rtr)
      × (not (bit_and (raw_id f) 0x2000_0000 == 0) ≡ f.error)
raw_id_parts f h =
    let low : f.arb_id % 0x2000_0000 ≡ f.arb_id = omega arith in
    let (fits, m, e, r, x) = flagged_parts f.arb_id f.extended f.rtr f.error h in
    rw (raw_id-flagged f, low)
      (
        fits,
        mask_ext (flagged f.arb_id f.extended f.rtr f.error) ∙ m,
        rw e (flag_test f.extended 0x8000_0000 (omega arith)),
        rw r (flag_test f.rtr 0x4000_0000 (omega arith)),
        rw x (flag_test f.error 0x2000_0000 (omega arith)),
      )

-- The FD flags of a byte that was written for an FD frame.
flag_bits :
    (brs esi : Bool)
    → let flags = bit_or (bit_or 1 (if brs then 2 else 0)) (if esi then 4 else 0) in
      (not (bit_and flags 1 == 0) ≡ true)
      × (not (bit_and flags 2 == 0) ≡ brs)
      × (not (bit_and flags 4 == 0) ≡ esi)
flag_bits true true = (refl, refl, refl)
flag_bits true false = (refl, refl, refl)
flag_bits false true = (refl, refl, refl)
flag_bits false false = (refl, refl, refl)

-- `resize` in two steps, the first of them wide enough.
take-resize_least :
    (n m : ℕ) (xs : List ℕ) → length xs ≤ n → n ≤ m → take n (resize m xs) ≡ resize n xs
take-resize_least zero m xs h k = refl
take-resize_least (suc n) zero xs h k = absurd (omega arith)
take-resize_least (suc n) (suc m) [] h k =
    ap (λ tail. 0 ∷ tail) (take-resize_least n m [] (omega arith) (omega arith))
take-resize_least (suc n) (suc m) (x ∷ xs) h k =
    ap (λ tail. x ∷ tail) (take-resize_least n m xs (omega arith) (omega arith))

-- Reading either layout.
parse-layout :
    (e0 e1 e2 e3 i0 i1 i2 i3 dlc channel flags : ℕ) (body : List ℕ) (fd : Bool)
    → length body ≡ (if fd then 64 else 8)
    → (not (bit_and flags 1 == 0) || ltb 8 dlc) ≡ fd
    → let word = u32_from_le i0 i1 i2 i3 in
      parse_host_frame (e0 ∷ e1 ∷ e2 ∷ e3 ∷ i0 ∷ i1 ∷ i2 ∷ i3 ∷ dlc ∷ channel ∷ flags ∷ 0 ∷ body)
      ≡ some (record {
        echo_id = u32_from_le e0 e1 e2 e3;
        arb_id = bit_and word 0x1FFF_FFFF;
        extended = not (bit_and word 0x8000_0000 == 0);
        rtr = not (bit_and word 0x4000_0000 == 0);
        error = not (bit_and word 0x2000_0000 == 0);
        channel = channel;
        fd = fd;
        brs = fd && not (bit_and flags 2 == 0);
        esi = fd && not (bit_and flags 4 == 0);
        dlc = dlc;
        payload = take (dlc_to_len dlc fd) body;
      })
unfolding parse_host_frame read_host_frame
parse-layout e0 e1 e2 e3 i0 i1 i2 i3 dlc channel flags body true size kind =
    ground (arith, dlc_to_len-le dlc true)
parse-layout e0 e1 e2 e3 i0 i1 i2 i3 dlc channel flags body false size kind =
    ground (arith, dlc_to_len-le dlc false)

encode-layout :
    (f : HostFrame)
    → IsHostFrame f
    → encode_host_frame f
      ≡ u32_to_le f.echo_id
        ++ (u32_to_le (raw_id f)
            ++ (f.dlc ∷ f.channel ∷ flags_byte f ∷ 0 ∷ resize (capacity f.fd) f.payload))
unfolding encode_host_frame wire_len
encode-layout f h =
    let cap : wire_len f - 12 ≡ capacity f.fd = ground arith in
    let small : f.dlc < 16 = ground (arith, h.code_fits) in
    let code : bit_and f.dlc 0x0F ≡ f.dlc = omega (arith, bit_and_mask 4 f.dlc) in
    let whole : min (length f.payload) (capacity f.fd) ≡ length f.payload =
      omega (arith, h.payload_fits, dlc_to_len-le f.dlc f.fd) in
    rw (cap, whole, code, take-ge (length f.payload) f.payload (omega arith))

-- The kind that a reader makes of the flags and the code is the kind that was written.
kind_read :
    (f : HostFrame) → IsHostFrame f → (not (bit_and (flags_byte f) 1 == 0) || ltb 8 f.dlc) ≡ f.fd
unfolding flags_byte
kind_read f h = ground (arith, h.code_fits, flag_bits f.brs f.esi)

-- A host frame that its layout can carry reads back, with the payload padded to what its length
-- code names.
pub parse-encode_host_frame :
    (f : HostFrame) → IsHostFrame f → parse_host_frame (encode_host_frame f) ≡ some (padded f)
unfolding flags_byte
parse-encode_host_frame f h =
    let raw = raw_id f in
    let echo = f.echo_id in
    let (word, low, extended, rtr, error) = raw_id_parts f h.id_fits in
    let body = resize (capacity f.fd) f.payload in
    rw (encode-layout f h) (
      ground (
        arith,
        parse-layout (echo % 256) (echo / 256 % 256) (echo / 65536 % 256) (echo / 16777216 % 256)
            (raw % 256) (raw / 256 % 256) (raw / 65536 % 256) (raw / 16777216 % 256) f.dlc f.channel
            (flags_byte f) body f.fd (length-resize (capacity f.fd) f.payload) (kind_read f h),
        u32_le_round echo h.echo_fits,
        u32_le_round raw word,
        low,
        extended,
        rtr,
        error,
        flag_bits f.brs f.esi,
        take-resize_least (dlc_to_len f.dlc f.fd) (capacity f.fd) f.payload h.payload_fits
            (dlc_to_len-le f.dlc f.fd),
      ))

-- A frame built to be transmitted carries its payload whole, when that fits its kind, the id is in
-- range and the bit rate switch is for FD only.
pub transmit-IsHostFrame :
    (arb_id : ℕ) (extended rtr fd brs : Bool) (channel : ℕ) (payload : List ℕ)
    → arb_id < 0x2000_0000
    → length payload ≤ capacity fd
    → (fd ≡ false → brs ≡ false)
    → IsHostFrame (transmit arb_id extended rtr fd brs channel payload)
unfolding transmit
transmit-IsHostFrame arb_id extended rtr fd brs channel payload h k b =
    let (low, high, code) = payload_dlc-fits (length payload) fd in
    record {
      echo_fits = omega arith;
      id_fits = h;
      code_fits = code;
      payload_fits = omega arith;
      classic_brs = b;
      classic_esi = λ e. refl;
    }

payload_read :
    (bytes : List ℕ) (dlc : ℕ) (fd : Bool)
    → 20 ≤ length bytes
    → (fd ≡ true → 76 ≤ length bytes)
    → length (slice bytes 12 (min (dlc_to_len dlc fd) (capacity fd))) ≡ dlc_to_len dlc fd
payload_read bytes dlc fd h k = elim (Bool-cases fd) [
  | inl e ↦ ground (
    arith,
    e,
    k e,
    dlc_to_len-le dlc fd,
    length-take (min (dlc_to_len dlc fd) (capacity fd)) (drop 12 bytes),
    length-drop 12 bytes,
  )
  | inr e ↦ ground (
    arith,
    e,
    dlc_to_len-le dlc fd,
    length-take (min (dlc_to_len dlc fd) (capacity fd)) (drop 12 bytes),
    length-drop 12 bytes,
  )
]

-- Any buffer of 20 bytes or more is a frame with a 29-bit id, a payload of the length that its code
-- names, FD only from 76 bytes on, and FD flags only if FD; a shorter one is none.
pub parse_host_frame_total :
    (bytes : List ℕ)
    → (length bytes < 20 → parse_host_frame bytes ≡ none)
      × (20 ≤ length bytes
          → (f : HostFrame) × (parse_host_frame bytes ≡ some f)
            × (f.arb_id < 0x2000_0000)
            × (length f.payload ≡ dlc_to_len f.dlc f.fd)
            × (f.fd ≡ true → 76 ≤ length bytes)
            × (f.fd ≡ false → (f.brs ≡ false) × (f.esi ≡ false)))
unfolding parse_host_frame
parse_host_frame_total bytes = (
  λ h. ground arith,
  λ h. (
    read_host_frame bytes,
    ground arith,
    unfold read_host_frame in omega (arith, mask_ext (u32_le_at bytes 4)),
    unfold read_host_frame in payload_read bytes (at bytes 8) _ h (λ e. ground arith),
    unfold read_host_frame in λ e. ground arith,
    unfold read_host_frame in λ e. (ground arith, ground arith),
  ),
)
