-- ===== src/Decode/Bits.antt =====
-- wiretap-decode: bits, and the numbers that they and bytes stand for.
use mathlib.Core.List.{reverse, reverse-cons, reverse-append}
use native.Mathlib.Nat.{
  add-mul-mod_self_left, add-mul-div_left, mod-eq_of_lt, div-eq_of_lt, pow-suc, one-le-pow,
  pow-le-pow_right,
}
use mathlib.Core.Path.{subst}
use wiretap_lib_rs.Base.{
  ℕ, suc, ◌+◌, ◌*◌, ◌/◌, ◌%◌, ◌^◌, ◌≤◌, ◌<◌, ◌≡◌, refl, sym, ap, ◌∙◌, List, [], ◌∷◌, ◌++◌, length,
  All, arith, length-append,
}
use wiretap_lib_rs.Base.Bytes.{IsByte, IsBytes}
use wiretap_lib_rs.Decode.{Endianness, big, little, byte_bits, all_bits, accumulate}

-- The number that bytes stand for, least and most significant first.
abbrev pub le_number : List ℕ → ℕ
le_number [] = 0
le_number (b ∷ bytes) = b + 256 * le_number bytes

abbrev pub be_number : ℕ → List ℕ → ℕ
be_number acc [] = acc
be_number acc (b ∷ bytes) = be_number (acc * 256 + b) bytes

abbrev pub IsBit : ℕ → Type 0
IsBit b = b < 2

-- Bits shifted in behind a value of any size.
abbrev pub shifted : ℕ → List ℕ → ℕ
shifted value [] = value
shifted value (bit ∷ bits) = shifted (value * 2 + bit) bits

shifted-append : (v : ℕ) (xs ys : List ℕ) → shifted v (xs ++ ys) ≡ shifted (shifted v xs) ys
shifted-append v [] ys = refl
shifted-append v (x ∷ xs) ys = shifted-append (v * 2 + x) xs ys

spread : (p v x : ℕ) → p * (v * 2 + x) ≡ p * x + p * 2 * v
spread p v x = grind arith

shifted_shift : (v : ℕ) (xs : List ℕ) → shifted v xs ≡ shifted 0 xs + 2 ^ length xs * v
shifted_shift v [] = omega arith
shifted_shift v (x ∷ xs) =
    let p : ℕ = 2 ^ length xs in
    let whole : 2 ^ suc (length xs) * v ≡ p * 2 * v =
      ap (λ (t : ℕ). t * v) (pow-suc 2 (length xs)) in
    let zeros : shifted (0 * 2 + x) xs ≡ shifted 0 xs + p * x =
      shifted_shift (0 * 2 + x) xs ∙ ap (λ (t : ℕ). shifted 0 xs + p * t) (omega arith) in
    omega (arith, shifted_shift (v * 2 + x) xs, zeros, whole, spread p v x)

pub shifted-lt : (xs : List ℕ) → All IsBit xs → shifted 0 xs < 2 ^ length xs
shifted-lt [] a = omega arith
shifted-lt (x ∷ xs) a =
    let p : ℕ = 2 ^ length xs in
    let digit : p * x ≤ p = grind (arith, a.0) in
    omega (
      arith,
      shifted_shift (0 * 2 + x) xs,
      shifted-lt xs a.1,
      digit,
      pow-suc 2 (length xs),
      ap (λ (t : ℕ). p * t) (zero_digit x),
    )
  where
    zero_digit : (y : ℕ) → 0 * 2 + y ≡ y
    zero_digit y = omega arith

-- The bits between those in front and those behind.
pub between :
    (xs ys zs : List ℕ)
    → All IsBit ys
    → All IsBit zs
    → shifted 0 (xs ++ (ys ++ zs)) / 2 ^ length zs % 2 ^ length ys ≡ shifted 0 ys
between xs ys zs a b =
    let m : ℕ = 2 ^ length zs in
    let n : ℕ = 2 ^ length ys in
    let w : ℕ = shifted (shifted 0 xs) ys in
    let all : shifted 0 (xs ++ (ys ++ zs)) ≡ shifted 0 zs + m * w =
      shifted-append 0 xs (ys ++ zs) ∙ shifted-append (shifted 0 xs) ys zs ∙ shifted_shift w zs in
    let quotient : shifted 0 (xs ++ (ys ++ zs)) / m ≡ w =
      ap (λ (t : ℕ). t / m) all
      ∙ add-mul-div_left (shifted 0 zs) w (one-le-pow (length zs) 2 (omega arith))
      ∙ ap (λ (t : ℕ). t + w) (div-eq_of_lt (shifted-lt zs b))
      ∙ (omega arith) in
    ap (λ (t : ℕ). t % n) quotient
    ∙ ap (λ (t : ℕ). t % n) (shifted_shift (shifted 0 xs) ys)
    ∙ add-mul-mod_self_left (shifted 0 ys) n (shifted 0 xs)
    ∙ mod-eq_of_lt (shifted-lt ys a)

pub length-reverse : (xs : List ℕ) → length (reverse xs) ≡ length xs
length-reverse [] = refl
length-reverse (x ∷ xs) =
    ap length (reverse-cons x xs)
    ∙ length-append (reverse xs) (x ∷ [])
    ∙ (omega (arith, length-reverse xs))

pub All-halves : (xs ys : List ℕ) → All IsBit (xs ++ ys) → All IsBit xs × All IsBit ys
All-halves [] ys a = (tt, a)
All-halves (x ∷ xs) ys a = let rest = All-halves xs ys a.1 in ((a.0, rest.0), rest.1)

All-append : (xs ys : List ℕ) → All IsBit xs → All IsBit ys → All IsBit (xs ++ ys)
All-append [] ys a b = b
All-append (x ∷ xs) ys a b = (a.0, All-append xs ys a.1 b)

pub All-reverse : (xs : List ℕ) → All IsBit xs → All IsBit (reverse xs)
All-reverse [] a = tt
All-reverse (x ∷ xs) a =
    subst (All IsBit) (sym (reverse-cons x xs))
      (All-append (reverse xs) (x ∷ []) (All-reverse xs a.1) (a.0, tt))

byte_bits-IsBit : (endian : Endianness) (b : ℕ) → All IsBit (byte_bits endian b)
unfolding byte_bits
byte_bits-IsBit little b = omega arith
byte_bits-IsBit big b = omega arith

length-byte_bits : (endian : Endianness) (b : ℕ) → length (byte_bits endian b) ≡ 8
unfolding byte_bits
length-byte_bits little b = refl
length-byte_bits big b = refl

pub all_bits-IsBit : (endian : Endianness) (bytes : List ℕ) → All IsBit (all_bits endian bytes)
unfolding all_bits
all_bits-IsBit endian [] = tt
all_bits-IsBit endian (b ∷ bytes) =
    All-append (byte_bits endian b) (all_bits endian bytes) (byte_bits-IsBit endian b)
      (all_bits-IsBit endian bytes)

pub length-all_bits :
    (endian : Endianness) (bytes : List ℕ) → length (all_bits endian bytes) ≡ 8 * length bytes
unfolding all_bits
length-all_bits endian [] = refl
length-all_bits endian (b ∷ bytes) = omega (
  arith,
  length-append (byte_bits endian b) (all_bits endian bytes),
  length-byte_bits endian b,
  length-all_bits endian bytes,
)

shifted_byte_big : (v b : ℕ) → IsByte b → shifted v (byte_bits big b) ≡ v * 256 + b
unfolding byte_bits
shifted_byte_big v b h = omega arith

shifted_byte_little : (v b : ℕ) → IsByte b → shifted v (reverse (byte_bits little b)) ≡ v * 256 + b
unfolding byte_bits
shifted_byte_little v b h = omega arith

pub big_lem :
    (v : ℕ) (bytes : List ℕ) → IsBytes bytes → shifted v (all_bits big bytes) ≡ be_number v bytes
unfolding all_bits
big_lem v [] a = refl
big_lem v (b ∷ bytes) a =
    shifted-append v (byte_bits big b) (all_bits big bytes)
    ∙ ap (λ t. shifted t (all_bits big bytes)) (shifted_byte_big v b a.0)
    ∙ big_lem (v * 256 + b) bytes a.1

pub little_lem :
    (bytes : List ℕ) → IsBytes bytes → shifted 0 (reverse (all_bits little bytes)) ≡ le_number bytes
unfolding all_bits
little_lem [] a = refl
little_lem (b ∷ bytes) a =
    ap (shifted 0) (reverse-append (byte_bits little b) (all_bits little bytes))
    ∙ shifted-append 0 (reverse (all_bits little bytes)) (reverse (byte_bits little b))
    ∙ ap (λ t. shifted t (reverse (byte_bits little b))) (little_lem bytes a.1)
    ∙ shifted_byte_little (le_number bytes) b a.0
    ∙ (omega arith)

shifted_mod :
    (v w : ℕ) (bits : List ℕ)
    → v % 2 ^ 128 ≡ w % 2 ^ 128
    → shifted v bits % 2 ^ 128 ≡ shifted w bits % 2 ^ 128
shifted_mod v w [] h = h
shifted_mod v w (b ∷ bits) h = shifted_mod (v * 2 + b) (w * 2 + b) bits (omega (arith, h))

-- On 128 bits the value is cut to them.
accumulate-shifted :
    (v : ℕ) (bits : List ℕ) → v < 2 ^ 128 → accumulate v bits ≡ shifted v bits % 2 ^ 128
unfolding accumulate
accumulate-shifted v [] h = omega (arith, h)
accumulate-shifted v (b ∷ bits) h =
    accumulate-shifted ((v * 2 + b) % 2 ^ 128) bits (omega arith)
    ∙ shifted_mod ((v * 2 + b) % 2 ^ 128) (v * 2 + b) bits (omega arith)

-- Up to 126 bits fit.
pub accumulate_fits :
    (bits : List ℕ) → All IsBit bits → length bits ≤ 126 → accumulate 0 bits ≡ shifted 0 bits
accumulate_fits bits a h =
    let power : 2 ^ length bits ≤ 2 ^ 126 = pow-le-pow_right (omega arith) h in
    let small : shifted 0 bits < 2 ^ 126 = omega (arith, shifted-lt bits a, power) in
    accumulate-shifted 0 bits (omega arith) ∙ omega (arith, small)
