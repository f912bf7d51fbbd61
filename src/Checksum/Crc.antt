-- ===== src/Checksum/Crc.antt =====
-- algorithms.rs: the Modbus CRC with its table and bit by bit, its test, and the XOR.
use wiretap_lib_rs.Base.{
  ℕ, zero, suc, ◌+◌, ◌-◌, ◌*◌, ◌/◌, ◌%◌, ◌^◌, ◌≤◌, ◌<◌, bit_xor, true, ◌≡◌, refl, sym, ap, ap₂, ◌∙◌,
  ◌↔◌, List, [], ◌∷◌, ◌++◌, arith, All, length, length-append, take_exact, drop_exact,
}
use wiretap_lib_rs.Base.Bits.{
  bit_xor_digit, bit_xor_split, bit_xor-zero, bit_xor_comm, bit_and_mask, bit_xor-lt,
}
use native.Mathlib.Nat.{pow-suc}
use wiretap_lib_rs.Base.Bytes.{at, IsByte}
use wiretap_lib_rs.Checksum.{
  shift_out, repeat, over, crc16_step, crc16_parameterised, table_from, crc16_modbus_table,
  crc16_modbus_checksum, crc16_modbus_valid, crc16_modbus_step, crc16_modbus_poly_reflected,
  reflect16, xor_checksum,
}

xor_assoc_below :
    (n a b c : ℕ) → a ≤ n → b ≤ n → c ≤ n → bit_xor (bit_xor a b) c ≡ bit_xor a (bit_xor b c)
xor_assoc_below zero zero zero zero h k l = refl
xor_assoc_below zero (suc a) b c h k l = absurd (omega arith)
xor_assoc_below zero zero (suc b) c h k l = absurd (omega arith)
xor_assoc_below zero zero zero (suc c) h k l = absurd (omega arith)
xor_assoc_below (suc n) a b c h k l =
    let half =
      xor_assoc_below n (a / 2) (b / 2) (c / 2) (omega arith) (omega arith) (omega arith) in
    let left : bit_xor a b / 2 ≡ bit_xor (a / 2) (b / 2) = omega (arith, bit_xor_digit a b) in
    let right : bit_xor b c / 2 ≡ bit_xor (b / 2) (c / 2) = omega (arith, bit_xor_digit b c) in
    ground (
      arith,
      bit_xor_digit a b,
      bit_xor_digit b c,
      bit_xor_digit (bit_xor a b) c,
      bit_xor_digit a (bit_xor b c),
      left,
      right,
      half,
    )

bit_xor_assoc : (a b c : ℕ) → bit_xor (bit_xor a b) c ≡ bit_xor a (bit_xor b c)
bit_xor_assoc a b c = xor_assoc_below (a + b + c) a b c (omega arith) (omega arith) (omega arith)

-- What stands above the lowest bit goes through a step as it is.
shift_out-bit_xor : (p u v : ℕ) → shift_out p (bit_xor (u * 2) v) ≡ bit_xor u (shift_out p v)
unfolding shift_out
shift_out-bit_xor p u v = ground (
  arith,
  bit_and_mask 1 (bit_xor (u * 2) v),
  bit_and_mask 1 v,
  bit_xor_digit (u * 2) v,
  halves,
  bit_xor_assoc u (v / 2) p,
)
  where
    halves : bit_xor (u * 2) v / 2 ≡ bit_xor u (v / 2)
    halves =
        let double : u * 2 / 2 ≡ u = omega arith in
        omega (arith, bit_xor_digit (u * 2) v, ap (λ x. bit_xor x (v / 2)) double)

-- So does what stands above the lowest `n` bits through `n` steps.
repeat-bit_xor :
    (p n u v : ℕ)
    → repeat n (shift_out p) (bit_xor (u * 2 ^ n) v) ≡ bit_xor u (repeat n (shift_out p) v)
repeat-bit_xor p zero u v = ap (λ x. bit_xor x v) (omega arith)
repeat-bit_xor p (suc n) u v =
    let doubled : u * 2 ^ suc n ≡ u * 2 ^ n * 2 =
      omega (arith, ap (λ (t : ℕ). u * t) (pow-suc 2 n)) in
    ap (λ x. repeat n (shift_out p) (shift_out p (bit_xor x v))) doubled
    ∙ ap (repeat n (shift_out p)) (shift_out-bit_xor p (u * 2 ^ n) v)
    ∙ repeat-bit_xor p n u (shift_out p v)

at-table_from :
    (i n k : ℕ)
    → k < n
    → at (table_from i n) k ≡ repeat 8 (shift_out crc16_modbus_poly_reflected) (i + k)
unfolding table_from
at-table_from i zero k h = absurd (omega arith)
at-table_from i (suc n) zero h = ap (repeat 8 (shift_out crc16_modbus_poly_reflected)) (omega arith)
at-table_from i (suc n) (suc k) h =
    at-table_from (i + 1) n k (omega arith)
    ∙ ap (repeat 8 (shift_out crc16_modbus_poly_reflected)) (omega arith)

-- A register cut at its lowest byte.
cut_register :
    (crc byte : ℕ)
    → IsByte byte
    → bit_xor crc byte ≡ bit_xor (crc / 256 * 2 ^ 8) (bit_xor crc byte % 256)
cut_register crc byte h =
    let high = crc / 256 in
    let low = bit_xor (crc % 256) byte in
    let small : low < 256 = bit_xor-lt 8 (crc % 256) byte (omega arith) h in
    let whole : bit_xor (high * 256 + crc % 256) (0 * 256 + byte) ≡ bit_xor high 0 * 256 + low =
      bit_xor_split 8 high (crc % 256) 0 byte (omega arith) h in
    let apart : bit_xor (high * 256 + 0) (0 * 256 + low) ≡ bit_xor high 0 * 256 + bit_xor 0 low =
      bit_xor_split 8 high 0 0 low (omega arith) small in
    let from_register : bit_xor crc byte ≡ bit_xor (high * 256 + crc % 256) (0 * 256 + byte) =
      ap₂ bit_xor (omega arith) (omega arith) in
    let from_parts : bit_xor (high * 256) low ≡ bit_xor (high * 256 + 0) (0 * 256 + low) =
      ap₂ bit_xor (omega arith) (omega arith) in
    let sum : bit_xor crc byte ≡ high * 256 + low =
      omega (arith, from_register, whole, bit_xor-zero high) in
    let rest : bit_xor crc byte % 256 ≡ low = omega (arith, sum, small) in
    let again : bit_xor (high * 256) low ≡ high * 256 + low =
      omega (arith, from_parts, apart, bit_xor-zero high, bit_xor_comm 0 low, bit_xor-zero low) in
    sum ∙ sym again ∙ ap (bit_xor (high * 256)) (sym rest)

modbus_step :
    (crc byte : ℕ) → IsByte byte → crc16_modbus_step crc byte ≡ crc16_step 0x8005 true crc byte
unfolding crc16_modbus_step crc16_modbus_table crc16_step reflect16
modbus_step crc byte h =
    let index = bit_xor crc byte % 256 in
    ap (bit_xor (crc / 256)) (at-table_from 0 256 index (omega arith) ∙ ap run (omega arith))
    ∙ sym (repeat-bit_xor crc16_modbus_poly_reflected 8 (crc / 256) index)
    ∙ ap run (sym (cut_register crc byte h))
  where
    run : ℕ → ℕ
    run x = repeat 8 (shift_out crc16_modbus_poly_reflected) x

over_same :
    (crc : ℕ) (bytes : List ℕ)
    → All IsByte bytes
    → over crc16_modbus_step crc bytes ≡ over (crc16_step 0x8005 true) crc bytes
over_same crc [] h = refl
over_same crc (byte ∷ bytes) h =
    ap (λ c. over crc16_modbus_step c bytes) (modbus_step crc byte h.0)
    ∙ over_same (crc16_step 0x8005 true crc byte) bytes h.1

-- The table-driven Modbus CRC of any bytes is the bitwise CRC with polynomial 0x8005, the register
-- starting at 0xFFFF, reflected both ways and with nothing added at the end.
pub crc16_modbus_checksum-crc16_parameterised :
    (bytes : List ℕ)
    → All IsByte bytes
    → crc16_modbus_checksum bytes ≡ crc16_parameterised bytes 0x8005 0xFFFF 0x0000 true true
unfolding crc16_modbus_checksum crc16_parameterised
crc16_modbus_checksum-crc16_parameterised bytes h =
    over_same 0xFFFF bytes h ∙ sym (bit_xor-zero (over (crc16_step 0x8005 true) 0xFFFF bytes))

-- A message with two bytes behind its body is valid exactly when the body has at least two bytes and
-- the two are the body's CRC, low byte first.
pub crc16_modbus_valid_iff :
    (body : List ℕ) (low high : ℕ)
    → (crc16_modbus_valid (body ++ (low ∷ high ∷ [])) ≡ true)
      ↔ ((2 ≤ length body) × (crc16_modbus_checksum body ≡ low + high * 256))
unfolding crc16_modbus_valid
crc16_modbus_valid_iff body low high =
    let tail = low ∷ high ∷ [] in
    let size = length-append body tail in
    let front = take_exact body tail (length (body ++ tail) - 2) (omega (arith, size)) in
    let back = drop_exact body tail (length (body ++ tail) - 2) (omega (arith, size)) in
    ground (arith, size, front, back)

xor_self : (n a : ℕ) → a ≤ n → bit_xor a a ≡ 0
xor_self zero zero h = refl
xor_self zero (suc a) h = absurd (omega arith)
xor_self (suc n) a h = omega (arith, bit_xor_digit a a, xor_self n (a / 2) (omega arith))

over-append :
    (f : ℕ → ℕ → ℕ) (crc : ℕ) (xs ys : List ℕ) → over f crc (xs ++ ys) ≡ over f (over f crc xs) ys
over-append f crc [] ys = refl
over-append f crc (x ∷ xs) ys = over-append f (f crc x) xs ys

-- A message followed by its own XOR has the XOR 0.
pub xor_checksum_closes : (bytes : List ℕ) → xor_checksum (bytes ++ (xor_checksum bytes ∷ [])) ≡ 0
unfolding xor_checksum
xor_checksum_closes bytes =
    let sum = xor_checksum bytes in
    over-append bit_xor 0 bytes (sum ∷ []) ∙ xor_self sum sum (omega arith)
