-- ===== src/TestPattern/Sequence/Bitmap.antt =====
-- testpattern.rs: the bitmap of the tracker against the set of numbers seen.
use wiretap_lib_rs.Base.{
  ℕ, zero, suc, ◌+◌, ◌*◌, ◌/◌, ◌%◌, ◌^◌, ◌<◌, max, bit_or, Bool, false, ◌||◌, ◌≡◌, refl, ap, ◌∙◌,
  sym, List, [], ◌∷◌, arith, ◌==◌, if◌then◌else◌, of_bool, All, length, replicate, not,
}
use wiretap_lib_rs.Base.Bits.{bit_or_step, bit_and_one_bit}
use wiretap_lib_rs.Base.Bytes.{at, IsU16}
use wiretap_lib_rs.TestPattern.Sequence.{
  SequenceTracker, new, seen_words, set_at, mark_seen, track, track_all,
}
use native.Mathlib.Nat.{pow-suc, div-div-eq-div-mul, one-le-pow}

-- The digit at position `j`.
abbrev digit : ℕ → ℕ → ℕ
digit j x = x / 2 ^ j % 2

digit-suc : (j x : ℕ) → digit (suc j) x ≡ digit j (x / 2)
digit-suc j x =
    let doubled : 2 ^ suc j ≡ 2 * 2 ^ j = omega (arith, pow-suc 2 j) in
    ap (λ (t : ℕ). x / t % 2) doubled ∙ ap (λ (t : ℕ). t % 2) (sym (div-div-eq-div-mul x 2 (2 ^ j)))

half-bit_or : (a b : ℕ) → bit_or a b / 2 ≡ bit_or (a / 2) (b / 2)
half-bit_or a b = omega (arith, bit_or_step a b)

digit-bit_or : (j a b : ℕ) → digit j (bit_or a b) ≡ max (digit j a) (digit j b)
digit-bit_or zero a b = omega (arith, bit_or_step a b)
digit-bit_or (suc j) a b = ground (
  arith,
  digit-suc j (bit_or a b),
  digit-suc j a,
  digit-suc j b,
  digit-bit_or j (a / 2) (b / 2),
  half-bit_or a b,
)

digit-zero : (j : ℕ) → digit j 0 ≡ 0
digit-zero zero = refl
digit-zero (suc j) = digit-suc j 0 ∙ digit-zero j

half_pow : (k : ℕ) → 2 ^ suc k / 2 ≡ 2 ^ k
half_pow k = omega (arith, pow-suc 2 k)

digit-pow : (j k : ℕ) → digit j (2 ^ k) ≡ of_bool (j == k)
digit-pow zero zero = refl
digit-pow (suc j) zero = ground (arith, digit-suc j 1, digit-zero j)
digit-pow zero (suc k) = ground (arith, pow-suc 2 k)
digit-pow (suc j) (suc k) = ground (arith, digit-suc j (2 ^ suc k), half_pow k, digit-pow j k)

at-set_at :
    (xs : List ℕ) (i k v : ℕ)
    → i < length xs
    → at (set_at xs i v) k ≡ (if k == i then v else at xs k)
at-set_at [] i k v h = absurd (omega arith)
at-set_at (x ∷ xs) zero zero v h = refl
at-set_at (x ∷ xs) zero (suc k) v h = ground arith
at-set_at (x ∷ xs) (suc i) zero v h = ground arith
at-set_at (x ∷ xs) (suc i) (suc k) v h = ground (arith, at-set_at xs i k v (omega arith))

length-set_at : (xs : List ℕ) (i v : ℕ) → length (set_at xs i v) ≡ length xs
length-set_at [] i v = refl
length-set_at (x ∷ xs) zero v = refl
length-set_at (x ∷ xs) (suc i) v = ap suc (length-set_at xs i v)

-- Whether the bitmap has the bit of `seq`.
abbrev pub has_seen : List ℕ → ℕ → ℕ
has_seen seen seq = digit (seq % 64) (at seen (seq / 64))

mark_seen-was : (seen : List ℕ) (seq : ℕ) → (mark_seen seen seq).0 ≡ not (has_seen seen seq == 0)
unfolding mark_seen
mark_seen-was seen seq =
    ground (arith, bit_and_one_bit (seq % 64) (at seen (seq / 64)), one-le-pow (seq % 64) 2)

has_seen-mark_seen :
    (seen : List ℕ) (seq s : ℕ)
    → IsU16 seq
    → length seen ≡ seen_words
    → has_seen (mark_seen seen seq).1 s ≡ max (has_seen seen s) (of_bool (s == seq))
unfolding mark_seen
has_seen-mark_seen seen seq s h hl =
    let word = at seen (seq / 64) in
    let mask = 2 ^ (seq % 64) in
    ground (
      arith,
      at-set_at seen (seq / 64) (s / 64) (bit_or word mask) (omega (arith, h, hl)),
      digit-bit_or (s % 64) word mask,
      digit-pow (s % 64) (seq % 64),
    )

length-mark_seen : (seen : List ℕ) (seq : ℕ) → length (mark_seen seen seq).1 ≡ length seen
unfolding mark_seen
length-mark_seen seen seq =
    length-set_at seen (seq / 64) (bit_or (at seen (seq / 64)) (2 ^ (seq % 64)))

at-replicate : (n i : ℕ) → at (replicate n 0) i ≡ 0
at-replicate zero i = refl
at-replicate (suc n) zero = refl
at-replicate (suc n) (suc i) = at-replicate n i

abbrev pub occurs : ℕ → List ℕ → Bool
occurs s [] = false
occurs s (x ∷ xs) = s == x || occurs s xs

-- How many numbers of a stream stand earlier in it, or in what came before it.
abbrev pub repeats : List ℕ → List ℕ → ℕ
repeats before [] = 0
repeats before (seq ∷ seqs) = of_bool (occurs seq before) + repeats (seq ∷ before) seqs

-- A tracker whose bitmap holds the numbers of `before`.
record Remembers (before : List ℕ) (t : SequenceTracker) : Type 0 where
  pub words : length t.seen ≡ seen_words
  pub members : (s : ℕ) → has_seen t.seen s ≡ of_bool (occurs s before)

track-seen : (t : SequenceTracker) (seq : ℕ) → (track t seq).seen ≡ (mark_seen t.seen seq).1
unfolding track
track-seen t seq = ground arith

track-duplicates :
    (t : SequenceTracker) (seq : ℕ)
    → (track t seq).duplicates ≡ t.duplicates + of_bool (mark_seen t.seen seq).0
unfolding track
track-duplicates t seq = ground arith

track-Remembers :
    (before : List ℕ) (t : SequenceTracker) (seq : ℕ)
    → Remembers before t
    → IsU16 seq
    → Remembers (seq ∷ before) (track t seq)
track-Remembers before t seq r h = record {
  words = ap length (track-seen t seq) ∙ length-mark_seen t.seen seq ∙ r.words;
  members =
      λ s. ground (arith, track-seen t seq, has_seen-mark_seen t.seen seq s h r.words, r.members s);
}

new-Remembers : Remembers [] new
unfolding new
new-Remembers = record {
  words = refl;
  members = λ s. ground (arith, at-replicate seen_words (s / 64), digit-zero (s % 64));
}

track_all-repeats :
    (before : List ℕ) (t : SequenceTracker) (seqs : List ℕ)
    → Remembers before t
    → All IsU16 seqs
    → (track_all t seqs).duplicates ≡ t.duplicates + repeats before seqs
unfolding track_all
track_all-repeats before t [] r h = omega arith
track_all-repeats before t (seq ∷ seqs) r h = ground (
  arith,
  track-duplicates t seq,
  mark_seen-was t.seen seq,
  r.members seq,
  track_all-repeats (seq ∷ before) (track t seq) seqs (track-Remembers before t seq r h.0) h.1,
)

-- A tracker counts as duplicates exactly the 16-bit numbers that stand earlier in the stream,
-- however long the stream is.
pub track_all-duplicates :
    (seqs : List ℕ) → All IsU16 seqs → (track_all new seqs).duplicates ≡ repeats [] seqs
unfolding new
track_all-duplicates seqs h = omega (arith, track_all-repeats [] new seqs new-Remembers h)
