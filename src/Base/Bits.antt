-- ===== src/Base/Bits.antt =====
-- Bit operations as arithmetic. Each has one law for the lowest digit; the split of both arguments
-- at a bit position, zeros, bounds and symmetry follow from that law for all three at once.
use Prim.Native.Nat.{ℕ, zero, suc, ◌+◌, ◌-◌, ◌*◌, ◌/◌, ◌%◌, ◌^◌, ◌≤◌, ◌<◌, min, max}
use Prim.Native.Nat.{bit_and, bit_or, bit_xor, digits, bitwise, differ}
use Prim.Native.Nat.{bit_and-bitwise, bit_or-bitwise, bit_xor-bitwise}
use mathlib.Core.Path.{◌≡◌, refl, ap, ◌∙◌}
use native.Mathlib.Nat.{suc-add, pow-suc, one-le-pow, mod-lt, div-add-mod, mul_comm}
use native.Mathlib.Omega.{arith}

-- A digit more to go changes nothing once the count has reached the first number, so any such count
-- gives what the operation itself gives.
module _ (last : ℕ → ℕ) (join : ℕ → ℕ → ℕ) where
  digits-suc : (n a b : ℕ) → a ≤ n → digits last join (suc n) a b ≡ digits last join n a b
  digits-suc n zero b h = no_digit n b
    where
      no_digit : (k c : ℕ) → digits last join (suc k) zero c ≡ digits last join k zero c
      no_digit zero c = refl
      no_digit (suc k) c = refl
  digits-suc zero (suc a) b h = absurd (omega arith)
  digits-suc (suc n) (suc a) b h =
      ap (λ high. high * 2 + join (suc a % 2) (b % 2))
        (digits-suc n (suc a / 2) (b / 2) (omega arith))

  digits-bitwise : (extra a b : ℕ) → digits last join (extra + a) a b ≡ bitwise last join a b
  digits-bitwise zero a b = ap (λ k. digits last join k a b) (omega arith)
  digits-bitwise (suc extra) a b =
      ap (λ k. digits last join k a b) (suc-add extra a)
      ∙ digits-suc (extra + a) a b (omega arith)
      ∙ digits-bitwise extra a b

  low_digit :
      (a b : ℕ)
      → bitwise last join (suc a) b
        ≡ join (suc a % 2) (b % 2) + 2 * bitwise last join (suc a / 2) (b / 2)
  low_digit a b =
      let half = suc a / 2 in
      let filled : a ≡ a - half + half = omega arith in
      let high =
        ap (λ k. digits last join k half (b / 2)) filled ∙ digits-bitwise (a - half) half (b / 2) in
      omega (arith, high)

pub bit_and_step : (a b : ℕ) → bit_and a b ≡ bit_and (a / 2) (b / 2) * 2 + min (a % 2) (b % 2)
bit_and_step zero b = omega (arith, bit_and-bitwise 0 (b / 2), bit_and-bitwise 0 b)
bit_and_step (suc a) b = omega (
  arith,
  bit_and-bitwise (suc a / 2) (b / 2),
  low_digit (λ y. 0) min a b,
  bit_and-bitwise (suc a) b,
)

pub bit_or_step : (a b : ℕ) → bit_or a b ≡ bit_or (a / 2) (b / 2) * 2 + max (a % 2) (b % 2)
bit_or_step zero b = omega (arith, bit_or-bitwise 0 b, bit_or-bitwise 0 (b / 2))
bit_or_step (suc a) b = omega (
  arith,
  bit_or-bitwise (suc a / 2) (b / 2),
  low_digit (λ y. y) max a b,
  bit_or-bitwise (suc a) b,
)

pub bit_xor_step : (a b : ℕ) → bit_xor a b ≡ bit_xor (a / 2) (b / 2) * 2 + differ (a % 2) (b % 2)
bit_xor_step zero b = omega (arith, bit_xor-bitwise 0 b, bit_xor-bitwise 0 (b / 2))
bit_xor_step (suc a) b = omega (
  arith,
  bit_xor-bitwise (suc a / 2) (b / 2),
  low_digit (λ y. y) differ a b,
  bit_xor-bitwise (suc a) b,
)

differ-sum : (x y : ℕ) → x < 2 → y < 2 → differ x y ≡ (x + y) % 2
differ-sum zero zero h k = refl
differ-sum zero (suc zero) h k = refl
differ-sum (suc zero) zero h k = refl
differ-sum (suc zero) (suc zero) h k = refl
differ-sum zero (suc (suc y)) h k = absurd (omega arith)
differ-sum (suc zero) (suc (suc y)) h k = absurd (omega arith)
differ-sum (suc (suc x)) y h k = absurd (omega arith)

-- The digit of an exclusive or, in arithmetic.
pub bit_xor_digit : (a b : ℕ) → bit_xor a b ≡ bit_xor (a / 2) (b / 2) * 2 + (a + b) % 2
bit_xor_digit a b =
    omega (arith, bit_xor_step a b, differ-sum (a % 2) (b % 2) (omega arith) (omega arith))

twice_pow : (q k : ℕ) → q * 2 ^ suc k ≡ q * 2 ^ k * 2
twice_pow q k = omega (arith, ap (λ (t : ℕ). q * t) (pow-suc 2 k))

module _ (op g : ℕ → ℕ → ℕ)
    (digit : (a b : ℕ) → op a b ≡ op (a / 2) (b / 2) * 2 + g (a % 2) (b % 2))
    (zeros : op 0 0 ≡ 0) where
  -- Both arguments cut at bit `k`.
  split_at :
      (k q r s t : ℕ)
      → r < 2 ^ k
      → t < 2 ^ k
      → op (q * 2 ^ k + r) (s * 2 ^ k + t) ≡ op q s * 2 ^ k + op r t
  split_at zero q r s t h k = ground (arith, zeros)
  split_at (suc n) q r s t h k = ground (
    arith,
    pow-suc 2 n,
    twice_pow q n,
    twice_pow s n,
    twice_pow (op q s) n,
    digit (q * 2 ^ suc n + r) (s * 2 ^ suc n + t),
    digit r t,
    split_at n q (r / 2) s (t / 2) (omega (arith, pow-suc 2 n)) (omega (arith, pow-suc 2 n)),
  )

  bounded_by :
      ((x y : ℕ) → x < 2 → y < 2 → g x y < 2) → (k a b : ℕ) → a < 2 ^ k → b < 2 ^ k → op a b < 2 ^ k
  bounded_by small zero a b h k = ground (arith, zeros)
  bounded_by small (suc n) a b h k = omega (
    arith,
    pow-suc 2 n,
    digit a b,
    small (a % 2) (b % 2) (omega arith) (omega arith),
    bounded_by small n (a / 2) (b / 2) (omega (arith, pow-suc 2 n)) (omega (arith, pow-suc 2 n)),
  )

  symmetric_to :
      ((x y : ℕ) → x < 2 → y < 2 → g x y ≡ g y x) → (n a b : ℕ) → a ≤ n → b ≤ n → op a b ≡ op b a
  symmetric_to same zero zero zero h k = refl
  symmetric_to same zero (suc a) b h k = absurd (omega arith)
  symmetric_to same zero zero (suc b) h k = absurd (omega arith)
  symmetric_to same (suc n) a b h k = omega (
    arith,
    digit a b,
    digit b a,
    same (a % 2) (b % 2) (omega arith) (omega arith),
    symmetric_to same n (a / 2) (b / 2) (omega arith) (omega arith),
  )

  -- With zero on the right, when that leaves each digit alone or clears it.
  keeps_zero : ((x : ℕ) → g x 0 ≡ x) → (n a : ℕ) → a ≤ n → op a 0 ≡ a
  keeps_zero id zero zero h = zeros
  keeps_zero id zero (suc a) h = absurd (omega arith)
  keeps_zero id (suc n) a h =
      omega (arith, digit a 0, id (a % 2), keeps_zero id n (a / 2) (omega arith))

  clears_zero : ((x : ℕ) → g x 0 ≡ 0) → (n a : ℕ) → a ≤ n → op a 0 ≡ 0
  clears_zero no_digit zero zero h = zeros
  clears_zero no_digit zero (suc a) h = absurd (omega arith)
  clears_zero no_digit (suc n) a h =
      omega (arith, digit a 0, no_digit (a % 2), clears_zero no_digit n (a / 2) (omega arith))

differ_zero : (x : ℕ) → differ x 0 ≡ x
differ_zero zero = refl
differ_zero (suc x) = refl

pub bit_and_split :
    (k q r s t : ℕ)
    → r < 2 ^ k
    → t < 2 ^ k
    → bit_and (q * 2 ^ k + r) (s * 2 ^ k + t) ≡ bit_and q s * 2 ^ k + bit_and r t
bit_and_split = split_at bit_and min bit_and_step refl

pub bit_or_split :
    (k q r s t : ℕ)
    → r < 2 ^ k
    → t < 2 ^ k
    → bit_or (q * 2 ^ k + r) (s * 2 ^ k + t) ≡ bit_or q s * 2 ^ k + bit_or r t
bit_or_split = split_at bit_or max bit_or_step refl

pub bit_xor_split :
    (k q r s t : ℕ)
    → r < 2 ^ k
    → t < 2 ^ k
    → bit_xor (q * 2 ^ k + r) (s * 2 ^ k + t) ≡ bit_xor q s * 2 ^ k + bit_xor r t
bit_xor_split = split_at bit_xor differ bit_xor_step refl

pub bit_and-zero : (a : ℕ) → bit_and a 0 ≡ 0
bit_and-zero a = clears_zero bit_and min bit_and_step refl (λ x. omega arith) a a (omega arith)

pub bit_or-zero : (a : ℕ) → bit_or a 0 ≡ a
bit_or-zero a = keeps_zero bit_or max bit_or_step refl (λ x. omega arith) a a (omega arith)

pub bit_xor-zero : (a : ℕ) → bit_xor a 0 ≡ a
bit_xor-zero a = keeps_zero bit_xor differ bit_xor_step refl differ_zero a a (omega arith)

pub bit_or_comm : (a b : ℕ) → bit_or a b ≡ bit_or b a
bit_or_comm a b =
    symmetric_to bit_or max bit_or_step refl (λ x y h k. omega arith) (a + b) a b (omega arith)
      (omega arith)

pub bit_xor_comm : (a b : ℕ) → bit_xor a b ≡ bit_xor b a
bit_xor_comm a b =
    symmetric_to bit_xor differ bit_xor_step refl
      (λ x y h k. omega (arith, differ-sum x y h k, differ-sum y x k h)) (a + b) a b (omega arith)
      (omega arith)

pub bit_xor-lt : (k a b : ℕ) → a < 2 ^ k → b < 2 ^ k → bit_xor a b < 2 ^ k
bit_xor-lt =
    bounded_by bit_xor differ bit_xor_step refl (λ x y h k. omega (arith, differ-sum x y h k))

pub bit_or-lt : (k a b : ℕ) → a < 2 ^ k → b < 2 ^ k → bit_or a b < 2 ^ k
bit_or-lt = bounded_by bit_or max bit_or_step refl (λ x y h k. omega arith)

bit_and_ones : (k a : ℕ) → a < 2 ^ k → bit_and a (2 ^ k - 1) ≡ a
bit_and_ones zero a h = ground arith
bit_and_ones (suc n) a h = omega (
  arith,
  pow-suc 2 n,
  one-le-pow n 2,
  bit_and_step a (2 ^ suc n - 1),
  ap (λ (t : ℕ). bit_and (a / 2) t) halved,
  bit_and_ones n (a / 2) (omega (arith, pow-suc 2 n)),
)
  where
    halved : (2 ^ suc n - 1) / 2 ≡ 2 ^ n - 1
    halved = omega (arith, pow-suc 2 n, one-le-pow n 2)

pow_pos : (k : ℕ) → 1 ≤ 2 ^ k
pow_pos k = one-le-pow k 2 (omega arith)

-- A number cut at bit `k`.
cut_at : (k a : ℕ) → a / 2 ^ k * 2 ^ k + a % 2 ^ k ≡ a
cut_at k a = grind (arith, pow_pos k, div-add-mod a (2 ^ k), mul_comm (2 ^ k) (a / 2 ^ k))

mod_pow-lt : (k a : ℕ) → a % 2 ^ k < 2 ^ k
mod_pow-lt k a = mod-lt a (pow_pos k)

-- A mask of `k` ones is the remainder by `2 ^ k`.
pub bit_and_mask : (k a : ℕ) → bit_and a (2 ^ k - 1) ≡ a % 2 ^ k
bit_and_mask k a = ground (
  arith,
  pow_pos k,
  cut_at k a,
  mod_pow-lt k a,
  bit_and-zero (a / 2 ^ k),
  bit_and_ones k (a % 2 ^ k),
  bit_and_split k (a / 2 ^ k) (a % 2 ^ k) 0 (2 ^ k - 1),
)

bit_and-one : (a : ℕ) → bit_and a 1 ≡ a % 2
bit_and-one a = bit_and_mask 1 a

-- One bit, tested in place.
pub bit_and_one_bit : (k a : ℕ) → bit_and a (2 ^ k) ≡ a / 2 ^ k % 2 * 2 ^ k
bit_and_one_bit k a = ground (
  arith,
  pow_pos k,
  cut_at k a,
  mod_pow-lt k a,
  bit_and-zero (a % 2 ^ k),
  bit_and-one (a / 2 ^ k),
  bit_and_split k (a / 2 ^ k) (a % 2 ^ k) 1 0,
)

-- `|` of parts that share no bit is a sum, in either order.
pub bit_or_disjoint : (k q r : ℕ) → r < 2 ^ k → bit_or (q * 2 ^ k) r ≡ q * 2 ^ k + r
bit_or_disjoint k q r h =
    ground (arith, pow_pos k, bit_or-zero q, bit_or_comm 0 r, bit_or-zero r, bit_or_split k q 0 0 r)

pub bit_or_disjoint_low : (k q r : ℕ) → r < 2 ^ k → bit_or r (q * 2 ^ k) ≡ q * 2 ^ k + r
bit_or_disjoint_low k q r h = bit_or_comm r (q * 2 ^ k) ∙ bit_or_disjoint k q r h
