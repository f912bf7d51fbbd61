-- ===== src/Socketcan/RoundTrip.antt =====
-- socketcan.rs: both layouts, written and read.
use wiretap_lib_rs.Base.{
  ℕ, ◌-◌, ◌*◌, ◌/◌, ◌%◌, ◌≤◌, ◌<◌, min, bit_and, bit_or, Bool, true, false, not, ◌≡◌, refl, ap, ◌∙◌,
  ◌↔◌, none, some, List, [], ◌∷◌, ◌++◌, arith, length, take, drop, take-ge, inl, inr, Bool-cases,
  length-take, append-nil, leb, ◌==◌, if◌then◌else◌, of_bool,
}
use wiretap_lib_rs.Base.Bits.{bit_or-zero}
use wiretap_lib_rs.Base.Bytes.{
  IsU32, at, resize, length-resize, take-resize, u32_le_round, u32_be_round, u32_from_le,
  u32_from_be,
}
use wiretap_lib_rs.ArbId.Laws.{mask_ext, mask_std, flagged, flagged_parts, flag_test}
use wiretap_lib_rs.Socketcan.{
  split_can_id, make_can_id, Frame, new_frame, wire_len, payload_limit, parse_frame, raw_id,
  flags_byte, encode_frame, u32_to_ne, u32_from_ne, read_frame,
}

-- The width of an id.
abbrev pub id_span : Bool → ℕ
id_span extended = if extended then 0x2000_0000 else 0x800

-- What a frame of its kind can hold: an id of its width, a payload within the layout, and FD flags
-- only on an FD frame.
pub record IsFrame (f : Frame) : Type 0 where
  pub id_fits : f.arb_id < id_span f.extended
  pub payload_fits : length f.payload ≤ (if f.fd then 64 else 8)
  pub classic_brs : f.fd ≡ false → f.brs ≡ false
  pub classic_esi : f.fd ≡ false → f.esi ≡ false

-- The three flags beside the id, whatever the order in which the code sets them.
raw_id-flagged :
    (f : Frame) → raw_id f ≡ flagged (f.arb_id % id_span f.extended) f.extended f.rtr f.error
unfolding raw_id make_can_id flagged
raw_id-flagged f = ground (
  arith,
  mask_ext f.arb_id,
  mask_std f.arb_id,
  bit_or-zero (make_can_id f.arb_id f.extended f.rtr),
)

split_parts :
    (word low : ℕ) (extended rtr error : Bool)
    → low < id_span extended
    → word % 0x2000_0000 ≡ low
    → bit_and word 0x8000_0000 ≡ of_bool extended * 0x8000_0000
    → bit_and word 0x4000_0000 ≡ of_bool rtr * 0x4000_0000
    → bit_and word 0x2000_0000 ≡ of_bool error * 0x2000_0000
    → split_can_id word ≡ record { arb_id = low; extended = extended; rtr = rtr; error = error }
unfolding split_can_id
split_parts word low extended rtr error h m e r x = ground (
  arith,
  mask_ext word,
  mask_std word,
  flag_test extended 0x8000_0000,
  flag_test rtr 0x4000_0000,
  flag_test error 0x2000_0000,
)

id_span-le : (extended : Bool) → id_span extended ≤ 0x2000_0000
id_span-le true = omega arith
id_span-le false = omega arith

pub split-flagged :
    (low : ℕ) (extended rtr error : Bool)
    → low < id_span extended
    → split_can_id (flagged low extended rtr error)
      ≡ record { arb_id = low; extended = extended; rtr = rtr; error = error }
split-flagged low extended rtr error h =
    let (fits, m, e, r, x) =
      flagged_parts low extended rtr error (omega (arith, id_span-le extended)) in
    split_parts (flagged low extended rtr error) low extended rtr error h m e r x

mod_span-lt : (id : ℕ) (extended : Bool) → id % id_span extended < id_span extended
mod_span-lt id true = omega arith
mod_span-lt id false = omega arith

make-flagged :
    (arb_id : ℕ) (extended rtr : Bool)
    → make_can_id arb_id extended rtr ≡ flagged (arb_id % id_span extended) extended rtr false
unfolding make_can_id flagged
make-flagged arb_id extended rtr = ground (arith, mask_ext arb_id, mask_std arb_id)

-- An id word that was made splits back into the id, cut to its width, and its flags, with no error.
pub split-make_can_id :
    (arb_id : ℕ) (extended rtr : Bool)
    → split_can_id (make_can_id arb_id extended rtr)
      ≡ record { arb_id = arb_id % id_span extended; extended = extended; rtr = rtr; error = false }
split-make_can_id arb_id extended rtr =
    ap split_can_id (make-flagged arb_id extended rtr)
    ∙ split-flagged (arb_id % id_span extended) extended rtr false (mod_span-lt arb_id extended)

-- Reading either layout: 16 bytes are a classic frame and 72 an FD frame.
parse-layout :
    (little : Bool) (a b c d len flags : ℕ) (body : List ℕ) (fd : Bool)
    → length body ≡ (if fd then 64 else 8)
    → len ≤ length body
    → let id = split_can_id (if little then u32_from_le a b c d else u32_from_be a b c d) in
      let seen = if fd then flags else 0 in
      parse_frame little (a ∷ b ∷ c ∷ d ∷ len ∷ flags ∷ 0 ∷ 0 ∷ body)
      ≡ some (record {
        arb_id = id.arb_id;
        extended = id.extended;
        rtr = id.rtr;
        error = id.error;
        fd = fd;
        brs = not (bit_and seen 1 == 0);
        esi = not (bit_and seen 2 == 0);
        payload = take len body;
      })
unfolding parse_frame
parse-layout little a b c d len flags body true size fits = ground arith
parse-layout little a b c d len flags body false size fits = ground arith

flag_bits :
    (brs esi : Bool)
    → let flags = bit_or (if brs then 1 else 0) (if esi then 2 else 0) in
      (not (bit_and flags 1 == 0) ≡ brs) × (not (bit_and flags 2 == 0) ≡ esi)
flag_bits true true = (refl, refl)
flag_bits true false = (refl, refl)
flag_bits false true = (refl, refl)
flag_bits false false = (refl, refl)

raw_id-IsU32 : (f : Frame) → IsU32 (raw_id f)
raw_id-IsU32 f =
    let low = f.arb_id % id_span f.extended in
    let small = mod_span-lt f.arb_id f.extended in
    rw (raw_id-flagged f)
      (flagged_parts low f.extended f.rtr f.error (omega (arith, id_span-le f.extended))).0

split-raw_id :
    (f : Frame)
    → f.arb_id < id_span f.extended
    → split_can_id (raw_id f)
      ≡ record { arb_id = f.arb_id; extended = f.extended; rtr = f.rtr; error = f.error }
split-raw_id f h =
    let low : f.arb_id % id_span f.extended ≡ f.arb_id = grind arith in
    rw (raw_id-flagged f, low) (split-flagged f.arb_id f.extended f.rtr f.error h)

-- The bytes of a frame whose payload fits, in the order in which they lie.
encode-layout :
    (little : Bool) (f : Frame)
    → IsFrame f
    → let raw = raw_id f in
      encode_frame little f
      ≡ u32_to_ne little raw
        ++ (length f.payload ∷ flags_byte f ∷ 0 ∷ 0 ∷ resize (if f.fd then 64 else 8) f.payload)
unfolding encode_frame wire_len
encode-layout little f h =
    let cap : wire_len f - 8 ≡ (if f.fd then 64 else 8) = ground arith in
    let whole : min (length f.payload) (if f.fd then 64 else 8) ≡ length f.payload =
      omega (arith, h.payload_fits) in
    let byte : length f.payload % 256 ≡ length f.payload = ground arith in
    rw (cap, whole, byte, take-ge (length f.payload) f.payload (omega arith))

parse_fields :
    (little : Bool) (f : Frame)
    → IsFrame f
    → parse_frame little (encode_frame little f)
      ≡ some (record {
        arb_id = f.arb_id;
        extended = f.extended;
        rtr = f.rtr;
        error = f.error;
        fd = f.fd;
        brs = f.brs;
        esi = f.esi;
        payload = f.payload;
      })
unfolding flags_byte
parse_fields little f h =
    let raw = raw_id f in
    let cap : ℕ = if f.fd then 64 else 8 in
    let body = resize cap f.payload in
    let word = raw_id-IsU32 f in
    let kept : take (length f.payload) body ≡ f.payload =
      rw append-nil at (take-resize cap f.payload [] h.payload_fits) in
    let (brs, esi) = flag_bits f.brs f.esi in
    rw (encode-layout little f h) (elim (Bool-cases little) [
      | inl le ↦ ground (
        arith,
        le,
        parse-layout little (raw % 256) (raw / 256 % 256) (raw / 65536 % 256) (raw / 16777216 % 256)
            (length f.payload) (flags_byte f) body f.fd,
        length-resize cap f.payload,
        u32_le_round raw word,
        split-raw_id f h.id_fits,
        kept,
        brs,
        esi,
      )
      | inr be ↦ ground (
        arith,
        be,
        parse-layout little (raw / 16777216 % 256) (raw / 65536 % 256) (raw / 256 % 256) (raw % 256)
            (length f.payload) (flags_byte f) body f.fd,
        length-resize cap f.payload,
        u32_be_round raw word,
        split-raw_id f h.id_fits,
        kept,
        brs,
        esi,
      )
    ])

-- A frame that its kind can hold reads back whole, on a machine of either byte order.
pub parse-encode_frame :
    (little : Bool) (f : Frame) → IsFrame f → parse_frame little (encode_frame little f) ≡ some f
parse-encode_frame little f h = parse_fields little f h

-- A frame that is built to be sent, with an id in range and a bit rate switch only if it is FD, is
-- one that its kind can hold, whatever the length of the payload.
pub new_frame-IsFrame :
    (arb_id : ℕ) (extended rtr fd brs : Bool) (payload : List ℕ)
    → arb_id < id_span extended
    → (fd ≡ false → brs ≡ false)
    → IsFrame (new_frame arb_id extended rtr fd brs payload)
unfolding new_frame
new_frame-IsFrame arb_id extended rtr fd brs payload h k = record {
  id_fits = h;
  payload_fits = ground (arith, length-take (payload_limit rtr fd) payload);
  classic_brs = k;
  classic_esi = λ e. refl;
}

split_can_id-lt : (raw : ℕ) → (split_can_id raw).arb_id < id_span (split_can_id raw).extended
unfolding split_can_id
split_can_id-lt raw = ground (arith, mask_ext raw, mask_std raw)

read_frame-IsFrame : (little : Bool) (bytes : List ℕ) → IsFrame (read_frame little bytes)
unfolding read_frame
read_frame-IsFrame little bytes = record {
  id_fits =
      split_can_id-lt (u32_from_ne little (at bytes 0) (at bytes 1) (at bytes 2) (at bytes 3));
  payload_fits = ground (
    arith,
    length-take (min (at bytes 4) (if leb 72 (length bytes) then 64 else 8)) (drop 8 bytes),
  );
  classic_brs = λ e. ground (arith, e);
  classic_esi = λ e. ground (arith, e);
}

-- Any read of 16 bytes or more is a frame that its kind can hold, FD exactly from 72 bytes on; a
-- shorter one is none.
pub parse_frame_total :
    (little : Bool) (bytes : List ℕ)
    → (length bytes < 16 → parse_frame little bytes ≡ none)
      × (16 ≤ length bytes
          → (f : Frame) × (parse_frame little bytes ≡ some f)
            × IsFrame f
            × ((f.fd ≡ true) ↔ (72 ≤ length bytes)))
unfolding parse_frame
parse_frame_total little bytes = (
  λ h. ground arith,
  λ h. (
    read_frame little bytes,
    ground arith,
    read_frame-IsFrame little bytes,
    (λ e. ground arith, λ e. ground arith),
  ),
)
