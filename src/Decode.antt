-- ===== src/Decode.antt =====
-- crates/wiretap-decode/src/lib.rs: signals out of the bytes of a frame. An `i128` is its 128 bits, as
-- a natural number; the conversion of one to an `f64` is a parameter. A text is the list of its characters' codes.
pub mod Time
pub mod Bits
pub mod Fields
mod Tests
use mathlib.Core.List.{reverse}
use wiretap_lib_rs.Base.{
  ℕ, zero, suc, ◌+◌, ◌-◌, ◌*◌, ◌/◌, ◌%◌, ◌^◌, min, max, bit_and, Bool, true, false, not, ◌&&◌, List,
  [], ◌∷◌, ◌++◌, length, take, drop, ltb, leb, ◌==◌, if◌then◌else◌,
}
use wiretap_lib_rs.Base.Bytes.{at}
use wiretap_lib_rs.Base.Int.{ℤ, pos, negsuc, sub_ℕ}

pub data Endianness : Type 0 where
  big little : Endianness

-- The bits of a byte, in the order of the byte order.
unfoldable pub byte_bits : Endianness → ℕ → List ℕ
byte_bits little b =
    b % 2
    ∷ b / 2 % 2
    ∷ b / 4 % 2
    ∷ b / 8 % 2
    ∷ b / 16 % 2
    ∷ b / 32 % 2
    ∷ b / 64 % 2
    ∷ b / 128 % 2
    ∷ []
byte_bits big b =
    b / 128 % 2
    ∷ b / 64 % 2
    ∷ b / 32 % 2
    ∷ b / 16 % 2
    ∷ b / 8 % 2
    ∷ b / 4 % 2
    ∷ b / 2 % 2
    ∷ b % 2
    ∷ []

unfoldable pub all_bits : Endianness → List ℕ → List ℕ
unfolding byte_bits
all_bits endian [] = []
all_bits endian (b ∷ bytes) = byte_bits endian b ++ all_bits endian bytes

-- Bits shifted in behind an `i128`, whose top bit each shift drops.
unfoldable pub accumulate : ℕ → List ℕ → ℕ
accumulate value [] = value
accumulate value (bit ∷ bits) = accumulate ((value * 2 + bit) % 2 ^ 128) bits

-- `1 << k` on 128 bits, with the shift taken modulo 128.
abbrev pub one_shifted : ℕ → ℕ
one_shifted k = 2 ^ (k % 128)

-- The integer that the 128 bits stand for.
abbrev pub as_i128 : ℕ → ℤ
as_i128 bits = if ltb bits (2 ^ 127) then pos bits else sub_ℕ bits (2 ^ 128)

unfoldable pub field_bits : List ℕ → ℕ → ℕ → List ℕ
field_bits bits start_bit bit_length =
    let start = min start_bit (length bits) in
    let end = min (start + bit_length) (length bits) in take (end - start) (drop start bits)

unfoldable pub unsigned : Endianness → List ℕ → ℕ
unfolding accumulate
unsigned big slice = accumulate 0 slice
unsigned little slice = accumulate 0 (reverse slice)

-- The bits of a value less the weight of its next bit, if its sign bit is set.
unfoldable pub sign_extended : Bool → ℕ → ℕ → ℕ
sign_extended signed bit_length value =
    if signed && not (bit_and value (one_shifted (bit_length - 1)) == 0)
    then (value + (2 ^ 128 - one_shifted bit_length)) % 2 ^ 128
    else value

-- `as_f64` is the conversion of an integer, and of 0 for `0.0`.
unfoldable pub extract_bits {ℓ} :
    {Float : Type ℓ} → (ℤ → Float) → List ℕ → ℕ → ℕ → Endianness → Bool → Float
unfolding all_bits field_bits unsigned sign_extended
extract_bits as_f64 bytes start_bit bit_length endian signed =
    if bit_length == 0
    then as_f64 (pos 0)
    else as_f64 (
        as_i128 (
          sign_extended signed bit_length
            (unsigned endian (field_bits (all_bits endian bytes) start_bit bit_length))))

abbrev pub div_ceil : ℕ → ℕ → ℕ
div_ceil n k = (n + k - 1) / k

-- Words of two bytes from an index on, zeros past the end.
unfoldable pub words_at : List ℕ → ℕ → ℕ → List (ℕ × ℕ)
words_at bytes idx zero = []
words_at bytes idx (suc n) = (at bytes idx, at bytes (idx + 1)) ∷ words_at bytes (idx + 2) n

-- A write past the end changes nothing.
unfoldable pub set : List ℕ → ℕ → ℕ → List ℕ
set [] i b = []
set (x ∷ xs) zero b = b ∷ xs
set (x ∷ xs) (suc i) b = x ∷ set xs i b

unfoldable pub write_words : List ℕ → ℕ → List (ℕ × ℕ) → List ℕ
unfolding set
write_words bytes idx [] = bytes
write_words bytes idx ((a, b) ∷ words) =
    write_words (set (set bytes idx a) (idx + 1) b) (idx + 2) words

unfoldable pub apply_word_swap : List ℕ → ℕ → ℕ → List ℕ
unfolding words_at write_words
apply_word_swap bytes start_bit bit_length =
    let start_byte = start_bit / 8 in
    let num_words = div_ceil (div_ceil bit_length 8) 2 in
    write_words bytes start_byte (reverse (words_at bytes start_byte num_words))

-- The bytes from an index on that are not zero, so many of them looked at.
unfoldable pub text_from : List ℕ → ℕ → ℕ → List ℕ
text_from bytes idx zero = []
text_from bytes idx (suc n) =
    let rest = text_from bytes (idx + 1) n in
    if at bytes idx == 0 then rest else at bytes idx ∷ rest

unfoldable pub decode_text : List ℕ → ℕ → ℕ → List ℕ
unfolding text_from
decode_text bytes start_bit bit_length = text_from bytes (start_bit / 8) (div_ceil bit_length 8)

-- `as u128`.
abbrev pub as_u128 : ℤ → ℕ
as_u128 (pos n) = n % 2 ^ 128
as_u128 (negsuc n) = 2 ^ 128 - 1 - n % 2 ^ 128

unfoldable pub low_bytes : ℕ → ℕ → List ℕ
low_bytes zero v = []
low_bytes (suc n) v = v % 256 ∷ low_bytes n (v / 256)

abbrev pub hex_digit : ℕ → ℕ
hex_digit n = if ltb n 10 then b'0' + n else b'A' + n - 10

-- Two digits for each byte, spaces between.
unfoldable pub join_hex : List ℕ → List ℕ
join_hex [] = []
join_hex (b ∷ []) = hex_digit (b / 16) ∷ hex_digit (b % 16) ∷ []
join_hex (b ∷ c ∷ bytes) = hex_digit (b / 16) ∷ hex_digit (b % 16) ∷ b' ' ∷ join_hex (c ∷ bytes)

-- Of an integer, which the float that the code is given stands for.
unfoldable pub format_hex : ℤ → ℕ → Endianness → List ℕ
unfolding low_bytes join_hex
format_hex value bit_length endian =
    let bytes =
      low_bytes (max (div_ceil bit_length 8) 1) (as_u128 value % 2 ^ min bit_length 128) in
    join_hex (elim endian [ big ↦ reverse bytes | little ↦ bytes ])
