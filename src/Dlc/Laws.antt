-- ===== src/Dlc/Laws.antt =====
-- dlc.rs: the two directions across the table, one against the other.
use wiretap_lib_rs.Base.{
  ℕ, ◌≤◌, ◌<◌, min, bit_and, Bool, true, false, ◌≡◌, refl, ◌↔◌, arith, leb, if◌then◌else◌, ◌&&◌,
  ◌||◌, not, ◌==◌,
}
use wiretap_lib_rs.Base.Bits.{bit_and_mask}
use wiretap_lib_rs.Base.Tables.{holds_below, holds_at}
use wiretap_lib_rs.Dlc.{dlc_to_len, len_to_dlc, payload_dlc}

-- What a frame type holds, in bytes, and its largest code.
abbrev pub capacity : Bool → ℕ
capacity fd = if fd then 64 else 8

abbrev pub top_code : Bool → ℕ
top_code fd = if fd then 15 else 8

agrees : Bool → Bool → Bool
agrees true b = b
agrees false b = not b

least_table :
    holds_below 65 (λ len.
      holds_below 16 (λ code. agrees (leb len (dlc_to_len code true)) (leb (len_to_dlc len) code)))
    ≡ true
unfolding holds_below agrees dlc_to_len len_to_dlc
least_table = refl

-- On FD, a code under 16 carries a length of at most 64 exactly when it is at least the code that
-- `len_to_dlc` gives: the code chosen is large enough, and no smaller one is.
pub len_to_dlc-least :
    (len code : ℕ) → len ≤ 64 → code < 16 → (len ≤ dlc_to_len code true) ↔ (len_to_dlc len ≤ code)
unfolding agrees
len_to_dlc-least len code h k =
    ground (arith, holds_at 16 _ (holds_at 65 _ least_table len (omega arith)) code k)

round_table :
    holds_below 16 (λ code.
      (len_to_dlc (dlc_to_len code true) == code)
      && (dlc_to_len code false == (if leb code 8 then code else 8)))
    ≡ true
unfolding holds_below dlc_to_len len_to_dlc
round_table = refl

-- Every length that an FD code names has that code back.
pub len_to_dlc-dlc_to_len : (code : ℕ) → code < 16 → len_to_dlc (dlc_to_len code true) ≡ code
len_to_dlc-dlc_to_len code h = ground (arith, holds_at 16 _ round_table code h)

-- A code above 8 on a classic frame means 8 bytes.
pub dlc_to_len_classic : (code : ℕ) → code < 16 → dlc_to_len code false ≡ min code 8
dlc_to_len_classic code h = ground (arith, holds_at 16 _ round_table code h)

small_table : (fd : Bool) → holds_below 9 (λ code. dlc_to_len code fd == code) ≡ true
unfolding holds_below dlc_to_len
small_table fd = refl

-- Up to 8 the code is the length, whatever the frame type.
pub dlc_to_len_small : (code : ℕ) (fd : Bool) → code ≤ 8 → dlc_to_len code fd ≡ code
dlc_to_len_small code fd h = ground (arith, holds_at 9 _ (small_table fd) code (omega arith))

bound_table : holds_below 16 (λ code. leb (dlc_to_len code true) 64) ≡ true
unfolding holds_below dlc_to_len
bound_table = refl

pub dlc_to_len_low : (code : ℕ) (fd : Bool) → code < 16 → dlc_to_len code fd ≤ capacity fd
dlc_to_len_low code true h = ground (arith, holds_at 16 _ bound_table code h)
dlc_to_len_low code false h = omega (arith, dlc_to_len_classic code h)

-- Only the low four bits of a code count.
pub dlc_to_len_masked :
    (code : ℕ) (fd : Bool) → dlc_to_len (bit_and code 0x0F) fd ≡ dlc_to_len code fd
unfolding dlc_to_len
dlc_to_len_masked code fd = rw masked refl
  where
    masked : bit_and (bit_and code 0x0F) 0x0F ≡ bit_and code 0x0F
    masked = omega (arith, bit_and_mask 4 (bit_and code 0x0F), bit_and_mask 4 code)

pub dlc_to_len-le : (code : ℕ) (fd : Bool) → dlc_to_len code fd ≤ capacity fd
dlc_to_len-le code fd =
    rw (← dlc_to_len_masked code fd)
      (dlc_to_len_low (bit_and code 0x0F) fd (omega (arith, bit_and_mask 4 code)))

fit_table :
    (fd : Bool)
    → holds_below 65 (λ len.
      leb len (dlc_to_len (len_to_dlc len) true)
      && (leb (len_to_dlc len) 15 && (not (leb len 8) || (len_to_dlc len == len))))
      ≡ true
unfolding holds_below dlc_to_len len_to_dlc
fit_table fd = refl

-- The code that a payload of any size gets names at most what the frame type holds, and at least
-- the payload clamped to that; it is under 16, and at most 8 on a classic frame.
pub payload_dlc-fits :
    (len : ℕ) (fd : Bool)
    → (min len (capacity fd) ≤ dlc_to_len (payload_dlc len fd) fd)
      × (dlc_to_len (payload_dlc len fd) fd ≤ capacity fd)
      × (payload_dlc len fd ≤ top_code fd)
unfolding payload_dlc
payload_dlc-fits len true =
    let t = holds_at 65 _ (fit_table true) (min len 64) (omega arith) in
    (ground arith, dlc_to_len-le _ true, ground arith)
payload_dlc-fits len false =
    let t = holds_at 65 _ (fit_table true) (min len 8) (omega arith) in
    let same : len_to_dlc (min len 8) ≡ min len 8 = ground arith in
    (
      omega (arith, dlc_to_len_classic (len_to_dlc (min len 8)) (omega arith)),
      dlc_to_len-le _ false,
      omega arith,
    )

-- A payload that fits the frame type and has an exact code is carried without padding.
pub payload_dlc_exact :
    (code : ℕ) (fd : Bool) → code ≤ top_code fd → payload_dlc (dlc_to_len code fd) fd ≡ code
unfolding payload_dlc
payload_dlc_exact code true h = rw clamped (len_to_dlc-dlc_to_len code (omega arith))
  where
    clamped : min (dlc_to_len code true) 64 ≡ dlc_to_len code true
    clamped = omega (arith, dlc_to_len-le code true)
payload_dlc_exact code false h =
    rw clamped (ground (arith, holds_at 65 _ (fit_table true) code (omega arith)))
  where
    clamped : min (dlc_to_len code false) 8 ≡ code
    clamped = omega (arith, dlc_to_len_classic code (omega arith))
