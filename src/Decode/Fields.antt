-- ===== src/Decode/Fields.antt =====
-- wiretap-decode: a bit field beside the number that the bytes stand for.
use mathlib.Core.List.{reverse, reverse-append}
use native.Mathlib.Nat.{div-eq_of_lt, div-eq_of_lt-le, pow-suc, one-le-pow, pow-le-pow_right}
use mathlib.Core.Path.{subst}
use wiretap_lib_rs.Base.{
  ℕ, suc, ◌+◌, ◌-◌, ◌*◌, ◌/◌, ◌%◌, ◌^◌, ◌≤◌, ◌<◌, min, bit_and, Bool, true, false, not, ◌&&◌, ◌≡◌,
  refl, sym, ap, ◌∙◌, List, ◌++◌, length, take, drop, ltb, leb, ◌==◌, if◌then◌else◌, All, arith,
  length-take, length-drop, take-append-drop, append_assoc, Bool-cases, inl, inr,
}
use wiretap_lib_rs.Base.Bits.{bit_and_one_bit}
use wiretap_lib_rs.Base.Bytes.{IsBytes}
use wiretap_lib_rs.Base.Int.{ℤ, pos, negsuc, sub_ℕ}
use wiretap_lib_rs.Decode.{
  Endianness, big, little, all_bits, field_bits, unsigned, as_i128, sign_extended, extract_bits,
}
use wiretap_lib_rs.Decode.Bits.{
  le_number, be_number, IsBit, shifted-lt, between, length-reverse, accumulate_fits, shifted,
  All-halves, All-reverse, all_bits-IsBit, length-all_bits, big_lem, little_lem,
}

-- A field of so many bits as an integer, in two's complement if it is signed.
abbrev pub of_field : Bool → ℕ → ℕ → ℤ
of_field signed bit_length value =
    if signed && leb (2 ^ (bit_length - 1)) value then sub_ℕ value (2 ^ bit_length) else pos value

sign_bit : (k v : ℕ) → v < 2 ^ suc k → (not (bit_and v (2 ^ k) == 0)) ≡ leb (2 ^ k) v
sign_bit k v h =
    let p = one-le-pow k 2 (omega arith) in
    let twice = pow-suc 2 k in
    elim (Bool-cases (leb (2 ^ k) v)) [
      | inl e ↦
          let digit : v / 2 ^ k ≡ 1 =
            div-eq_of_lt-le (2 ^ k) (ground (arith, e)) (omega (arith, h, twice)) in
          let one_bit : bit_and v (2 ^ k) ≡ 2 ^ k =
            bit_and_one_bit k v ∙ ap (λ (t : ℕ). t % 2 * 2 ^ k) digit ∙ (omega arith) in
          ground (arith, one_bit, p, e)
      | inr e ↦
          let low : v < 2 ^ k = ground (arith, e) in
          let no_bit : bit_and v (2 ^ k) ≡ 0 =
            bit_and_one_bit k v
            ∙ ap (λ (t : ℕ). t % 2 * 2 ^ k) (div-eq_of_lt low)
            ∙ (omega arith) in
          ground (arith, no_bit, e)
    ]

wrapped : (v p : ℕ) → v < p → p ≤ 2 ^ 126 → as_i128 (v + (2 ^ 128 - p)) ≡ sub_ℕ v p
wrapped v p h k =
    let high : ltb (v + (2 ^ 128 - p)) (2 ^ 127) ≡ false = ground (arith, h, k) in
    let below : leb (2 ^ 128) (v + (2 ^ 128 - p)) ≡ false = ground (arith, h, k) in
    let less : leb p v ≡ false = ground (arith, h) in
    rw (high, below, less) (ap negsuc (omega (arith, h, k)))

wrap_back : (v p : ℕ) → v < p → p ≤ 2 ^ 126 → as_i128 ((v + (2 ^ 128 - p)) % 2 ^ 128) ≡ sub_ℕ v p
wrap_back v p h k =
    let whole : (v + (2 ^ 128 - p)) % 2 ^ 128 ≡ v + (2 ^ 128 - p) = omega (arith, h, k) in
    rw (whole) (wrapped v p h k)

plain : (v : ℕ) → v < 2 ^ 126 → as_i128 v ≡ pos v
plain v h = let low : ltb v (2 ^ 127) ≡ true = ground (arith, h) in rw (low) refl

sign_extended-of_field :
    (signed : Bool) (n v : ℕ)
    → 0 < n
    → n ≤ 126
    → v < 2 ^ n
    → as_i128 (sign_extended signed n v) ≡ of_field signed n v
unfolding sign_extended
sign_extended-of_field signed n v h k b =
    let step : n ≡ suc (n - 1) = omega (arith, h) in
    let power : 2 ^ n ≤ 2 ^ 126 = pow-le-pow_right (omega arith) k in
    let low : (n - 1) % 128 ≡ n - 1 = omega (arith, k) in
    let width : n % 128 ≡ n = omega (arith, k) in
    let sign = sign_bit (n - 1) v (subst (λ t. v < 2 ^ t) step b) in
    elim (Bool-cases (signed && leb (2 ^ (n - 1)) v)) [
      | inl e ↦ rw (low, width, sign) (rw (e) (wrap_back v (2 ^ n) b power))
      | inr e ↦ rw (low, width, sign) (rw (e) (plain v (omega (arith, b, power))))
    ]

-- Bits as those in front of a field, the field's and those behind.
parted :
    (bits : List ℕ) (s n : ℕ) → take s bits ++ (take n (drop s bits) ++ drop n (drop s bits)) ≡ bits
parted bits s n =
    ap (λ rest. take s bits ++ rest) (take-append-drop n (drop s bits)) ∙ take-append-drop s bits

field_bits_within :
    (bits : List ℕ) (s n : ℕ) → s + n ≤ length bits → field_bits bits s n ≡ take n (drop s bits)
unfolding field_bits
field_bits_within bits s n h =
    let start : min s (length bits) ≡ s = omega (arith, h) in
    let end : min (s + n) (length bits) ≡ s + n = omega (arith, h) in
    let width : s + n - s ≡ n = omega arith in rw (start) (rw (end, width) refl)

-- Of at most 126 bits nothing is lost.
fitting_field {ℓ} :
    {Float : Type ℓ} (as_f64 : ℤ → Float) (bytes : List ℕ) (s n : ℕ) (endian : Endianness)
    (signed : Bool) (value : ℕ)
    → 0 < n
    → n ≤ 126
    → s + n ≤ length (all_bits endian bytes)
    → unsigned endian (take n (drop s (all_bits endian bytes))) ≡ value
    → value < 2 ^ n
    → extract_bits as_f64 bytes s n endian signed ≡ as_f64 (of_field signed n value)
unfolding extract_bits
fitting_field as_f64 bytes s n endian signed value h k fit read small =
    let some_bits : (n == 0) ≡ false = ground (arith, h) in
    rw (some_bits) (
      ap (λ xs. as_f64 (as_i128 (sign_extended signed n (unsigned endian xs))))
        (field_bits_within (all_bits endian bytes) s n fit)
      ∙ ap (λ v. as_f64 (as_i128 (sign_extended signed n v))) read
      ∙ ap as_f64 (sign_extended-of_field signed n value h k small))

length_field : (bits : List ℕ) (s n : ℕ) → s + n ≤ length bits → length (take n (drop s bits)) ≡ n
length_field bits s n fit = omega (arith, fit, length-take n (drop s bits), length-drop s bits)

-- A field of at most 126 bits that lies within its bytes, most significant bit first, is the number that the bytes stand
-- for, shifted down by what stands behind the field and cut to the field's width, in two's complement
-- if it is signed, and then converted.
pub extract_bits-big {ℓ} :
    {Float : Type ℓ} (as_f64 : ℤ → Float) (bytes : List ℕ) (start_bit bit_length : ℕ)
    (signed : Bool)
    → IsBytes bytes
    → 0 < bit_length
    → bit_length ≤ 126
    → start_bit + bit_length ≤ 8 * length bytes
    → extract_bits as_f64 bytes start_bit bit_length big signed
      ≡ as_f64 (
          of_field signed bit_length
            (be_number 0 bytes / 2 ^ (8 * length bytes - start_bit - bit_length) % 2 ^ bit_length))
unfolding unsigned
extract_bits-big as_f64 bytes s n signed a h k fit =
    let bits = all_bits big bytes in
    let long = length-all_bits big bytes in
    let front = take s bits in
    let field = take n (drop s bits) in
    let rest = drop n (drop s bits) in
    let parts : All IsBit (front ++ (field ++ rest)) =
      subst (All IsBit) (sym (parted bits s n)) (all_bits-IsBit big bytes) in
    let later = All-halves field rest (All-halves front (field ++ rest) parts).1 in
    let width : length field ≡ n = length_field bits s n (omega (arith, fit, long)) in
    let behind : length rest ≡ 8 * length bytes - s - n =
      omega (arith, fit, long, length-drop n (drop s bits), length-drop s bits) in
    let number : shifted 0 (front ++ (field ++ rest)) ≡ be_number 0 bytes =
      ap (shifted 0) (parted bits s n) ∙ big_lem 0 bytes a in
    let value : shifted 0 field ≡ be_number 0 bytes / 2 ^ (8 * length bytes - s - n) % 2 ^ n =
      sym (between front field rest later.0 later.1)
      ∙ ap (λ (t : ℕ). t / 2 ^ length rest % 2 ^ length field) number
      ∙ ap (λ (t : ℕ). be_number 0 bytes / 2 ^ t % 2 ^ length field) behind
      ∙ ap (λ (t : ℕ). be_number 0 bytes / 2 ^ (8 * length bytes - s - n) % 2 ^ t) width in
    let small : shifted 0 field < 2 ^ n =
      subst (λ t. shifted 0 field < 2 ^ t) width (shifted-lt field later.0) in
    let exact = accumulate_fits field later.0 (omega (arith, width, k)) in
    fitting_field as_f64 bytes s n big signed (shifted 0 field) h k (omega (arith, fit, long)) exact
      small
    ∙ ap (λ v. as_f64 (of_field signed n v)) value

-- A field of at most 126 bits that lies within its bytes, least significant bit first, is the number that the bytes stand
-- for, shifted down by the start of the field and cut to its width, in two's complement if it is
-- signed, and then converted.
pub extract_bits-little {ℓ} :
    {Float : Type ℓ} (as_f64 : ℤ → Float) (bytes : List ℕ) (start_bit bit_length : ℕ)
    (signed : Bool)
    → IsBytes bytes
    → 0 < bit_length
    → bit_length ≤ 126
    → start_bit + bit_length ≤ 8 * length bytes
    → extract_bits as_f64 bytes start_bit bit_length little signed
      ≡ as_f64 (of_field signed bit_length (le_number bytes / 2 ^ start_bit % 2 ^ bit_length))
unfolding unsigned
extract_bits-little as_f64 bytes s n signed a h k fit =
    let bits = all_bits little bytes in
    let long = length-all_bits little bytes in
    let front = take s bits in
    let field = take n (drop s bits) in
    let rest = drop n (drop s bits) in
    let parts : All IsBit (front ++ (field ++ rest)) =
      subst (All IsBit) (sym (parted bits s n)) (all_bits-IsBit little bytes) in
    let split = All-halves front (field ++ rest) parts in
    let fields = All-reverse field (All-halves field rest split.1).0 in
    let width : length (reverse field) ≡ n =
      length-reverse field ∙ length_field bits s n (omega (arith, fit, long)) in
    let behind : length (reverse front) ≡ s =
      length-reverse front ∙ length-take s bits ∙ (omega (arith, fit, long)) in
    let turned : reverse bits ≡ reverse rest ++ (reverse field ++ reverse front) =
      ap reverse (sym (parted bits s n))
      ∙ reverse-append front (field ++ rest)
      ∙ ap (λ xs. xs ++ reverse front) (reverse-append field rest)
      ∙ append_assoc (reverse rest) (reverse field) (reverse front) in
    let number : shifted 0 (reverse rest ++ (reverse field ++ reverse front)) ≡ le_number bytes =
      ap (shifted 0) (sym turned) ∙ little_lem bytes a in
    let value : shifted 0 (reverse field) ≡ le_number bytes / 2 ^ s % 2 ^ n =
      sym
        (between (reverse rest) (reverse field) (reverse front) fields (All-reverse front split.0))
      ∙ ap (λ (t : ℕ). t / 2 ^ length (reverse front) % 2 ^ length (reverse field)) number
      ∙ ap (λ (t : ℕ). le_number bytes / 2 ^ t % 2 ^ length (reverse field)) behind
      ∙ ap (λ (t : ℕ). le_number bytes / 2 ^ s % 2 ^ t) width in
    let small : shifted 0 (reverse field) < 2 ^ n =
      subst (λ t. shifted 0 (reverse field) < 2 ^ t) width (shifted-lt (reverse field) fields) in
    let exact = accumulate_fits (reverse field) fields (omega (arith, width, k)) in
    fitting_field as_f64 bytes s n little signed (shifted 0 (reverse field)) h k
      (omega (arith, fit, long)) exact small
    ∙ ap (λ v. as_f64 (of_field signed n v)) value
