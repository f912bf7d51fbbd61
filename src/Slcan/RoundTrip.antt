-- ===== src/Slcan/RoundTrip.antt =====
-- slcan.rs: lines, encoded and parsed.
use wiretap_lib_rs.Base.{
  ℕ, zero, suc, ◌+◌, ◌*◌, ◌/◌, ◌%◌, ◌≤◌, ◌<◌, bit_and, Bool, true, false, not, ◌&&◌, ◌≡◌, refl, sym,
  ap, ◌∙◌, Option, none, some, List, [], ◌∷◌, ◌++◌, arith, length, take, drop, get_or, ltb, ◌==◌,
  if◌then◌else◌, All, length-append, take_exact, drop_exact, append_assoc, append-nil, take-ge,
}
use wiretap_lib_rs.Base.Bits.{bit_and_mask}
use wiretap_lib_rs.Base.Bytes.{IsByte}
use wiretap_lib_rs.Base.Tables.{holds_below, holds_at}
use wiretap_lib_rs.Dlc.{dlc_to_len}
use wiretap_lib_rs.Dlc.Laws.{top_code}
use wiretap_lib_rs.ArbId.{arb_mask_ext, arb_mask_std}
use wiretap_lib_rs.ArbId.Laws.{mask_ext, mask_std}
use wiretap_lib_rs.Slcan.{
  Frame, prefix, flags_of, to_digit, hex_value, from_hex, get_range, parse_pairs, parse_payload,
  parse_body, parse_frame, hex_char, id_chars, payload_chars, line_of, hex_digits,
}

abbrev pub id_span : Bool → ℕ
id_span extended = if extended then 0x2000_0000 else 0x800

-- What a line can carry: an id of its width, a code of its kind, a payload of the length that the code
-- names, and no more flags than a prefix tells apart.
pub record IsFrame (f : Frame) : Type 0 where
  pub id_fits : f.arb_id < id_span f.extended
  pub code_fits : f.dlc ≤ top_code f.fd
  pub payload_fits : length f.payload ≡ (if f.rtr then 0 else dlc_to_len f.dlc f.fd)
  pub payload_bytes : All IsByte f.payload
  pub classic_remote : f.rtr ≡ true → f.fd ≡ false
  pub classic_brs : f.fd ≡ false → f.brs ≡ false

-- The character of a digit reads back.
same_digit : Option ℕ → ℕ → Bool
same_digit none n = false
same_digit (some d) n = d == n

digit_table :
    holds_below 16 (λ n. same_digit (to_digit (hex_char n)) n && not (hex_char n == b'+')) ≡ true
unfolding holds_below same_digit to_digit hex_char
digit_table = refl

to_digit-hex_char :
    (n : ℕ) → n < 16 → (to_digit (hex_char n) ≡ some n) × (hex_char n == b'+' ≡ false)
unfolding same_digit
to_digit-hex_char n h =
    (ground (arith, holds_at 16 _ digit_table n h), ground (arith, holds_at 16 _ digit_table n h))

pub hex_char-low : (n : ℕ) → hex_char n ≡ hex_char (n % 16)
unfolding hex_char
hex_char-low n =
    let same : bit_and n 0x0F ≡ bit_and (n % 16) 0x0F =
      omega (arith, bit_and_mask 4 n, bit_and_mask 4 (n % 16)) in
    ap (λ i. get_or hex_digits i 0) same

hex_value-hex_char :
    (acc n : ℕ) (cs : List ℕ) → hex_value acc (hex_char n ∷ cs) ≡ hex_value (acc * 16 + n % 16) cs
unfolding hex_value
hex_value-hex_char acc n cs =
    let digit = (to_digit-hex_char (n % 16) (omega arith)).0 in
    rw (hex_char-low n, digit, hex_value) refl

-- An id of 3 digits, or of 8, reads back whole.
hex_value_three : (id : ℕ) → id < 0x1000 → hex_value 0 (id_chars id 3) ≡ some id
unfolding id_chars
hex_value_three id h =
    rw (hex_value-hex_char, hex_value-hex_char, hex_value-hex_char)
      (unfold hex_value in ap some (omega arith))

hex_value_eight : (id : ℕ) → id < 0x1_0000_0000 → hex_value 0 (id_chars id 8) ≡ some id
unfolding id_chars
hex_value_eight id h = simp hex_value-hex_char (unfold hex_value in ap some (omega arith))

pub length-id_chars : (id digits : ℕ) → length (id_chars id digits) ≡ digits
unfolding id_chars
length-id_chars id zero = refl
length-id_chars id (suc shift) = ap suc (length-id_chars id shift)

pub length-payload_chars :
    (payload : List ℕ) (i len : ℕ) → length (payload_chars payload i len) ≡ len * 2
unfolding payload_chars
length-payload_chars payload i zero = refl
length-payload_chars payload i (suc len) = omega (arith, length-payload_chars payload (i + 1) len)

from_hex-byte :
    (byte : ℕ) → IsByte byte → from_hex (hex_char (byte / 16) ∷ hex_char byte ∷ []) ≡ some byte
unfolding from_hex hex_value
from_hex-byte byte h = ground (
  arith,
  hex_char-low byte,
  to_digit-hex_char (byte / 16) (omega arith),
  to_digit-hex_char (byte % 16) (omega arith),
)

All-get_or : (xs : List ℕ) (i : ℕ) → All IsByte xs → i < length xs → IsByte (get_or xs i 0)
All-get_or [] i a h = absurd (omega arith)
All-get_or (x ∷ xs) zero a h = a.0
All-get_or (x ∷ xs) (suc i) a h = All-get_or xs i a.1 (omega arith)

take-drop-suc :
    (xs : List ℕ) (i n : ℕ)
    → i < length xs
    → take (suc n) (drop i xs) ≡ get_or xs i 0 ∷ take n (drop (i + 1) xs)
take-drop-suc [] i n h = absurd (omega arith)
take-drop-suc (x ∷ xs) zero n h = refl
take-drop-suc (x ∷ xs) (suc i) n h = ground (arith, take-drop-suc xs i n (omega arith))

parse_pairs-payload_chars :
    (payload : List ℕ) (i len : ℕ)
    → All IsByte payload
    → i + len ≤ length payload
    → parse_pairs (payload_chars payload i len) ≡ some (take len (drop i payload))
unfolding parse_pairs payload_chars
parse_pairs-payload_chars payload i zero h k = refl
parse_pairs-payload_chars payload i (suc len) h k =
    let byte = get_or payload i 0 in
    let rest = parse_pairs-payload_chars payload (i + 1) len h (omega (arith, k)) in
    rw (from_hex-byte byte (All-get_or payload i h (omega (arith, k))), rest)
      (ap some (sym (take-drop-suc payload i len (omega (arith, k)))))

flags_of-prefix :
    (f : Frame) → IsFrame f → flags_of (prefix f) ≡ some (f.extended, f.rtr, f.fd, f.brs)
unfolding flags_of prefix
flags_of-prefix f h = ground (arith, h.classic_remote, h.classic_brs)

hex_char-plus : (n : ℕ) → (hex_char n == b'+') ≡ false
hex_char-plus n = ground (arith, hex_char-low n, to_digit-hex_char (n % 16) (omega arith))

from_hex_digits :
    (m n : ℕ) (cs : List ℕ)
    → from_hex (hex_char m ∷ hex_char n ∷ cs) ≡ hex_value 0 (hex_char m ∷ hex_char n ∷ cs)
unfolding from_hex
from_hex_digits m n cs = rw (hex_char-plus m) refl

-- The range of a middle part.
get_range_middle :
    (front middle back : List ℕ) (i n : ℕ)
    → i ≡ length front
    → n ≡ length middle
    → get_range (front ++ (middle ++ back)) i n ≡ some middle
unfolding get_range
get_range_middle front middle back i n h k = ground (
  arith,
  length-append front (middle ++ back),
  length-append middle back,
  drop_exact front (middle ++ back) i h,
  take_exact middle back n k,
)

abbrev digit_count : Bool → ℕ
digit_count extended = if extended then 8 else 3

from_hex-id_chars :
    (id : ℕ) (extended : Bool)
    → id < id_span extended
    → from_hex (id_chars id (digit_count extended)) ≡ some id
unfolding id_chars
from_hex-id_chars id true k = from_hex_digits _ _ _ ∙ hex_value_eight id (omega arith)
from_hex-id_chars id false k = from_hex_digits _ _ _ ∙ hex_value_three id (omega arith)

abbrev wire_length : Frame → ℕ
wire_length f = if f.rtr then 0 else dlc_to_len f.dlc f.fd

no_payload : (xs : List ℕ) → length xs ≡ 0 → xs ≡ []
no_payload [] h = refl
no_payload (x ∷ xs) h = absurd (omega arith)

parse_payload-chars :
    (payload front : List ℕ) (i dlc : ℕ) (rtr fd : Bool)
    → length payload ≡ (if rtr then 0 else dlc_to_len dlc fd)
    → All IsByte payload
    → i ≡ length front
    → parse_payload
        (front ++ payload_chars payload 0 (if rtr then 0 else dlc_to_len dlc fd))
        i
        dlc
        rtr
        fd
      ≡ some payload
unfolding parse_payload
parse_payload-chars payload front i dlc true fd h a k = ap some (sym (no_payload payload h))
parse_payload-chars payload front i dlc false fd h a k =
    let len = dlc_to_len dlc fd in
    let chars = payload_chars payload 0 len in
    let range =
      get_range_middle front chars [] i (len * 2) k (sym (length-payload_chars payload 0 len)) in
    let whole = ap (λ b. get_range (front ++ b) i (len * 2)) (sym (append-nil chars)) ∙ range in
    let pairs = parse_pairs-payload_chars payload 0 len a (omega (arith, h)) in
    rw (whole) (pairs ∙ ap some (take-ge len payload (omega (arith, h))))

masked_id :
    (id : ℕ) (extended : Bool)
    → id < id_span extended
    → (if extended then bit_and id arb_mask_ext else bit_and id arb_mask_std) ≡ id
masked_id id true h = omega (arith, mask_ext id)
masked_id id false h = omega (arith, mask_std id)

parse_body-parts :
    (p code : ℕ) (ids chars payload : List ℕ) (id dlc : ℕ) (extended rtr fd brs : Bool)
    → length ids ≡ digit_count extended
    → from_hex ids ≡ some id
    → to_digit code ≡ some dlc
    → dlc ≤ top_code fd
    → parse_payload (p ∷ (ids ++ (code ∷ chars))) (1 + digit_count extended + 1) dlc rtr fd
      ≡ some payload
    → parse_body (p ∷ (ids ++ (code ∷ chars))) extended rtr fd brs
      ≡ some (record {
        arb_id = id;
        extended = extended;
        rtr = rtr;
        fd = fd;
        brs = brs;
        dlc = dlc;
        payload = payload;
      })
unfolding parse_body
parse_body-parts p code ids chars payload id dlc extended rtr fd brs hl hi hc hd hp =
    let line = p ∷ (ids ++ (code ∷ chars)) in
    let first =
      get_range_middle (p ∷ []) ids (code ∷ chars) 1 (digit_count extended) refl (sym hl) in
    let second : get_range line (1 + digit_count extended) 1 ≡ some (code ∷ []) =
      get_range_middle (p ∷ ids) (code ∷ []) chars (1 + digit_count extended) 1 (omega (arith, hl))
        refl in
    let allowed : (not fd && ltb 8 dlc) ≡ false = ground (arith, hd) in
    rw (first, hi, second, hc, allowed, hp) refl

-- A frame that a line can carry comes back whole from its line.
pub parse_frame-line_of : (f : Frame) → IsFrame f → parse_frame (line_of f) ≡ some f
unfolding parse_frame line_of
parse_frame-line_of f h =
    let ids = id_chars f.arb_id (digit_count f.extended) in
    let chars = payload_chars f.payload 0 (wire_length f) in
    let code = hex_char f.dlc in
    let low : f.dlc < 16 = ground (arith, h.code_fits) in
    let front : List ℕ = prefix f ∷ (ids ++ (code ∷ [])) in
    let long = length-id_chars f.arb_id (digit_count f.extended) in
    let payload =
      parse_payload-chars f.payload front (1 + digit_count f.extended + 1) f.dlc f.rtr f.fd
        h.payload_fits h.payload_bytes (omega (arith, length-append ids (code ∷ []), long)) in
    let regroup : front ++ chars ≡ prefix f ∷ (ids ++ (code ∷ chars)) =
      ap (λ t. prefix f ∷ t) (append_assoc ids (code ∷ []) chars) in
    rw (masked_id f.arb_id f.extended h.id_fits) (
      rw (flags_of-prefix f h, parse_frame)
        (parse_body-parts (prefix f) code ids chars f.payload f.arb_id f.dlc f.extended f.rtr f.fd
          f.brs long (from_hex-id_chars f.arb_id f.extended h.id_fits)
          (to_digit-hex_char f.dlc low).0 h.code_fits
          (ap (λ b. parse_payload b (1 + digit_count f.extended + 1) f.dlc f.rtr f.fd) (sym regroup)
            ∙ payload)))
