-- ===== src/Base/Bytes.antt =====
-- `to_le_bytes`, `from_be_bytes` and the like of `u16` and `u32`, and reads out of a byte slice.
use Prim.Native.Nat.{ℕ, zero, suc, ◌+◌, ◌*◌, ◌/◌, ◌%◌, ◌≤◌, ◌<◌}
use mathlib.Core.Path.{◌≡◌, refl, ap}
use mathlib.Core.List.{List, [], ◌∷◌, ◌++◌}
use native.Mathlib.Omega.{arith}
use wiretap_lib_rs.Base.Lists.{
  get_or-append, drop-append, take-append, length-drop, All, length, get_or, take, drop,
}

abbrev pub IsByte : ℕ → Type 0
IsByte b = b < 256

abbrev pub IsU16 : ℕ → Type 0
IsU16 n = n < 65536

abbrev pub IsU32 : ℕ → Type 0
IsU32 n = n < 4294967296

abbrev pub IsBytes : List ℕ → Type 0
IsBytes xs = All IsByte xs

-- `bytes[i]`; the code guards each read by a length, so the default is not met.
abbrev pub at : List ℕ → ℕ → ℕ
at xs i = get_or xs i 0

-- `bytes[i..i + n]`.
abbrev pub slice : List ℕ → ℕ → ℕ → List ℕ
slice xs i n = take n (drop i xs)

abbrev pub u16_to_le : ℕ → List ℕ
u16_to_le n = (n % 256) ∷ (n / 256 % 256) ∷ []

abbrev pub u16_to_be : ℕ → List ℕ
u16_to_be n = (n / 256 % 256) ∷ (n % 256) ∷ []

abbrev pub u32_to_le : ℕ → List ℕ
u32_to_le n = (n % 256) ∷ (n / 256 % 256) ∷ (n / 65536 % 256) ∷ (n / 16777216 % 256) ∷ []

abbrev pub u32_to_be : ℕ → List ℕ
u32_to_be n = (n / 16777216 % 256) ∷ (n / 65536 % 256) ∷ (n / 256 % 256) ∷ (n % 256) ∷ []

abbrev pub u16_from_le : ℕ → ℕ → ℕ
u16_from_le a b = a + b * 256

abbrev pub u16_from_be : ℕ → ℕ → ℕ
u16_from_be a b = a * 256 + b

abbrev pub u32_from_le : ℕ → ℕ → ℕ → ℕ → ℕ
u32_from_le a b c d = a + b * 256 + c * 65536 + d * 16777216

abbrev pub u32_from_be : ℕ → ℕ → ℕ → ℕ → ℕ
u32_from_be a b c d = a * 16777216 + b * 65536 + c * 256 + d

-- A little-endian `u32` at offset `i`.
abbrev pub u32_le_at : List ℕ → ℕ → ℕ
u32_le_at xs i = u32_from_le (at xs i) (at xs (i + 1)) (at xs (i + 2)) (at xs (i + 3))

pub u32_le_round :
    (n : ℕ)
    → IsU32 n
    → u32_from_le (n % 256) (n / 256 % 256) (n / 65536 % 256) (n / 16777216 % 256) ≡ n
u32_le_round n h = omega arith

pub u32_be_round :
    (n : ℕ)
    → IsU32 n
    → u32_from_be (n / 16777216 % 256) (n / 65536 % 256) (n / 256 % 256) (n % 256) ≡ n
u32_be_round n h = omega arith

-- `Vec::resize(n, 0)`.
abbrev pub resize : ℕ → List ℕ → List ℕ
resize zero xs = []
resize (suc n) [] = 0 ∷ resize n []
resize (suc n) (x ∷ xs) = x ∷ resize n xs

pub length-resize : (n : ℕ) (xs : List ℕ) → length (resize n xs) ≡ n
length-resize zero xs = refl
length-resize (suc n) [] = omega (arith, length-resize n [])
length-resize (suc n) (x ∷ xs) = omega (arith, length-resize n xs)

pub resize_exact : (n : ℕ) (xs : List ℕ) → length xs ≡ n → resize n xs ≡ xs
resize_exact zero [] h = refl
resize_exact zero (x ∷ xs) h = absurd (omega arith)
resize_exact (suc n) [] h = absurd (omega arith)
resize_exact (suc n) (x ∷ xs) h = rw (resize_exact n xs (omega arith))

-- Reads that lie inside a buffer do not see what is appended to it.
pub u32_le_at-append :
    (xs ys : List ℕ) (i : ℕ) → i + 3 < length xs → u32_le_at (xs ++ ys) i ≡ u32_le_at xs i
u32_le_at-append xs ys i h = ground (
  arith,
  get_or-append xs ys i 0,
  get_or-append xs ys (i + 1) 0,
  get_or-append xs ys (i + 2) 0,
  get_or-append xs ys (i + 3) 0,
)

pub slice-append :
    (xs ys : List ℕ) (i n : ℕ) → i + n ≤ length xs → slice (xs ++ ys) i n ≡ slice xs i n
slice-append xs ys i n h =
    ground (arith, drop-append i xs ys, take-append n (drop i xs) ys, length-drop i xs)

-- `resize` pads a short list behind itself.
pub take-resize :
    (n : ℕ) (xs ys : List ℕ) → length xs ≤ n → take (length xs) (resize n xs ++ ys) ≡ xs
take-resize n [] ys h = refl
take-resize zero (x ∷ xs) ys h = absurd (omega arith)
take-resize (suc n) (x ∷ xs) ys h = ap (λ tail. x ∷ tail) (take-resize n xs ys (omega arith))
