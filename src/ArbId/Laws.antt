-- ===== src/ArbId/Laws.antt =====
-- The masks and flag bits of an id word, as arithmetic on its 29 low bits and its three top bits.
use wiretap_lib_rs.Base.{
  Bool, true, false, not, ◌==◌, ◌≤◌, if◌then◌else◌, of_bool, ap, ◌∙◌, ◌^◌, ℕ, ◌+◌, ◌*◌, ◌/◌, ◌%◌,
  ◌<◌, bit_and, bit_or, ◌≡◌, arith,
}
use wiretap_lib_rs.Base.Bits.{
  bit_and_mask, bit_and_one_bit, bit_or_disjoint_low, bit_or_split, bit_or-zero,
}
use wiretap_lib_rs.ArbId.{id_extended, id_fd, id_tx, id_arb_mask}

pub mask_ext : (n : ℕ) → bit_and n 0x1FFF_FFFF ≡ n % 0x2000_0000
mask_ext n = bit_and_mask 29 n

pub mask_std : (n : ℕ) → bit_and n 0x7FF ≡ n % 0x800
mask_std n = bit_and_mask 11 n

pub bit_31 : (n : ℕ) → bit_and n 0x8000_0000 ≡ n / 0x8000_0000 % 2 * 0x8000_0000
bit_31 n = bit_and_one_bit 31 n

pub bit_30 : (n : ℕ) → bit_and n 0x4000_0000 ≡ n / 0x4000_0000 % 2 * 0x4000_0000
bit_30 n = bit_and_one_bit 30 n

pub bit_29 : (n : ℕ) → bit_and n 0x2000_0000 ≡ n / 0x2000_0000 % 2 * 0x2000_0000
bit_29 n = bit_and_one_bit 29 n

pub set_31 : (n : ℕ) → n < 0x8000_0000 → bit_or n 0x8000_0000 ≡ 0x8000_0000 + n
set_31 n h = bit_or_disjoint_low 31 1 n h

-- Every word is its id bits and its three ingest flags, none of which overlap: each mask keeps the
-- bits of its own part, and the four parts add up to the word.
pub ingest_partition :
    (word : ℕ)
    → word < 0x1_0000_0000
    → bit_and word id_arb_mask + bit_and word id_extended + bit_and word id_fd + bit_and word id_tx
      ≡ word
ingest_partition word h = omega (arith, mask_ext word, bit_31 word, bit_30 word, bit_29 word)

-- A flag bit set beside lower bits.
set_bit : (k q r : ℕ) → r < 2 ^ k → bit_or (q * 2 ^ k + r) (1 * 2 ^ k + 0) ≡ bit_or q 1 * 2 ^ k + r
set_bit k q r h =
    bit_or_split k q r 1 0 h (omega (arith, h)) ∙ ap (λ t. bit_or q 1 * 2 ^ k + t) (bit_or-zero r)

-- `raw |= flag` under a condition.
abbrev pub with_flag : Bool → ℕ → ℕ → ℕ
with_flag on flag raw = if on then bit_or raw flag else raw

-- An id word of three flags over 29 bits, built the way that every SocketCAN id is.
unfoldable pub flagged : ℕ → Bool → Bool → Bool → ℕ
flagged low extended rtr error =
    with_flag error 0x2000_0000 (with_flag rtr 0x4000_0000 (with_flag extended 0x8000_0000 low))

flag_31 :
    (low : ℕ) (e : Bool)
    → low < 0x2000_0000
    → with_flag e 0x8000_0000 low ≡ of_bool e * 0x8000_0000 + low
flag_31 low true h = set_31 low (omega arith)
flag_31 low false h = omega arith

flag_30 :
    (low : ℕ) (e r : Bool)
    → low < 0x2000_0000
    → with_flag r 0x4000_0000 (of_bool e * 0x8000_0000 + low)
      ≡ of_bool e * 0x8000_0000 + of_bool r * 0x4000_0000 + low
flag_30 low true true h = omega (arith, set_bit 30 2 low (omega arith))
flag_30 low false true h = omega (arith, set_bit 30 0 low (omega arith))
flag_30 low e false h = omega arith

flag_29 :
    (low : ℕ) (e r x : Bool)
    → low < 0x2000_0000
    → with_flag x 0x2000_0000 (of_bool e * 0x8000_0000 + of_bool r * 0x4000_0000 + low)
      ≡ of_bool e * 0x8000_0000 + of_bool r * 0x4000_0000 + of_bool x * 0x2000_0000 + low
flag_29 low true true true h = omega (arith, set_bit 29 6 low (omega arith))
flag_29 low true false true h = omega (arith, set_bit 29 4 low (omega arith))
flag_29 low false true true h = omega (arith, set_bit 29 2 low (omega arith))
flag_29 low false false true h = omega (arith, set_bit 29 0 low (omega arith))
flag_29 low e r false h = omega arith

pub flagged-sum :
    (low : ℕ) (extended rtr error : Bool)
    → low < 0x2000_0000
    → flagged low extended rtr error
      ≡ of_bool extended * 0x8000_0000
        + of_bool rtr * 0x4000_0000
        + of_bool error * 0x2000_0000
        + low
unfolding flagged
flagged-sum low extended rtr error h =
    rw (flag_31 low extended h, flag_30 low extended rtr h) (flag_29 low extended rtr error h)

of_bool-le : (b : Bool) → of_bool b ≤ 1
of_bool-le true = omega arith
of_bool-le false = omega arith

-- Every part of such a word reads back.
pub flagged_parts :
    (low : ℕ) (extended rtr error : Bool)
    → low < 0x2000_0000
    → let word = flagged low extended rtr error in
      (word < 0x1_0000_0000)
      × (word % 0x2000_0000 ≡ low)
      × (bit_and word 0x8000_0000 ≡ of_bool extended * 0x8000_0000)
      × (bit_and word 0x4000_0000 ≡ of_bool rtr * 0x4000_0000)
      × (bit_and word 0x2000_0000 ≡ of_bool error * 0x2000_0000)
flagged_parts low extended rtr error h =
    let word = flagged low extended rtr error in
    let sum = flagged-sum low extended rtr error h in
    let e = of_bool-le extended in
    let r = of_bool-le rtr in
    let x = of_bool-le error in
    (
      omega arith,
      omega arith,
      omega (arith, bit_31 word),
      omega (arith, bit_30 word),
      omega (arith, bit_29 word),
    )

-- A flag test on such a part.
pub flag_test : (b : Bool) (flag : ℕ) → 0 < flag → not (of_bool b * flag == 0) ≡ b
flag_test true flag h = ground arith
flag_test false flag h = ground arith
