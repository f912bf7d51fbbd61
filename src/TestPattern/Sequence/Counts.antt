-- ===== src/TestPattern/Sequence/Counts.antt =====
-- testpattern.rs: what the tracker's counters say of the whole stream.
use wiretap_lib_rs.Base.{
  ℕ, zero, suc, ◌+◌, ◌%◌, ◌<◌, ◌≡◌, refl, ap, ◌∙◌, List, [], ◌∷◌, ◌++◌, arith, ◌==◌, if◌then◌else◌,
  All, length, some, ltb,
}
use wiretap_lib_rs.Base.Bytes.{IsU16}
use wiretap_lib_rs.TestPattern.Sequence.{
  SequenceTracker, new, track, track_all, wrapping_sub, wrap_threshold,
}

-- The numbers missing in all the gaps.
abbrev pub missing : List (ℕ × ℕ) → ℕ
missing [] = 0
missing (g ∷ gs) = wrapping_sub g.1 g.0 + missing gs

missing-append :
    (gs : List (ℕ × ℕ)) (g : ℕ × ℕ) → missing (gs ++ (g ∷ [])) ≡ missing gs + wrapping_sub g.1 g.0
missing-append [] g = omega arith
missing-append (h ∷ gs) g = omega (arith, missing-append gs g)

-- A tracker that has read a stream starting at `first`.
record Accounts (first : ℕ) (e : ℕ) (t : SequenceTracker) : Type 0 where
  pub expects : t.expected ≡ some e
  pub fits : e < 65536
  pub balance : (e + t.out_of_order) % 65536 ≡ (first + (t.rx_count + t.drops)) % 65536
  pub named : missing t.gaps ≡ t.drops

-- The number that is expected after `seq`.
abbrev next_expected : ℕ → ℕ → ℕ
next_expected e seq =
    if seq == e
    then (e + 1) % 65536
    else if ltb (wrapping_sub seq e) wrap_threshold
    then (seq + 1) % 65536
    else e

module _ (first e : ℕ) (t : SequenceTracker) (seq : ℕ) (a : Accounts first e t)
    (h : IsU16 seq) where
  track_expects : (track t seq).expected ≡ some (next_expected e seq)
  unfolding track
  track_expects = ground (arith, a.expects)

  missing-track : missing (track t seq).gaps ≡ (track t seq).drops
  unfolding track
  missing-track = ground (arith, a.expects, a.named, missing-append t.gaps (e, seq))

  track_balance :
      (next_expected e seq + (track t seq).out_of_order) % 65536
      ≡ (first + ((track t seq).rx_count + (track t seq).drops)) % 65536
  unfolding track
  track_balance = ground (arith, a.expects, a.balance, a.fits)

  track-Accounts : Accounts first (next_expected e seq) (track t seq)
  track-Accounts = record {
    expects = track_expects;
    fits = ground (arith, a.fits, h);
    balance = track_balance;
    named = missing-track;
  }

track_all-Accounts :
    (first e : ℕ) (t : SequenceTracker) (seqs : List ℕ)
    → Accounts first e t
    → All IsU16 seqs
    → (e' : ℕ) × Accounts first e' (track_all t seqs)
unfolding track_all
track_all-Accounts first e t [] a h = (e, a)
track_all-Accounts first e t (seq ∷ seqs) a h =
    track_all-Accounts first (next_expected e seq) (track t seq) seqs
      (track-Accounts first e t seq a h.0) h.1

first-Accounts : (seq : ℕ) → IsU16 seq → Accounts seq ((seq + 1) % 65536) (track new seq)
unfolding track new
first-Accounts seq h = record {
  expects = refl;
  fits = omega arith;
  balance = omega arith;
  named = refl;
}

track_counts : (t : SequenceTracker) (seq : ℕ) → (track t seq).rx_count ≡ t.rx_count + 1
unfolding track
track_counts t seq = ground arith

track_all-rx_count :
    (t : SequenceTracker) (seqs : List ℕ) → (track_all t seqs).rx_count ≡ t.rx_count + length seqs
unfolding track_all
track_all-rx_count t [] = omega arith
track_all-rx_count t (seq ∷ seqs) =
    omega (arith, track_all-rx_count (track t seq) seqs, track_counts t seq)

-- A stream of 16-bit numbers starting at `first`: what is expected next is, up to wrapping, `first`
-- plus everything received or missed less what came late, every number counted as dropped stands in
-- a named gap, and every frame is counted.
pub track_all-balance :
    (first : ℕ) (seqs : List ℕ)
    → IsU16 first
    → All IsU16 seqs
    → let t = track_all new (first ∷ seqs) in
      (e : ℕ) × (t.expected ≡ some e)
      × (missing t.gaps ≡ t.drops)
      × ((e + t.out_of_order) % 65536 ≡ (first + (t.rx_count + t.drops)) % 65536)
      × (t.rx_count ≡ suc (length seqs))
unfolding track_all new
track_all-balance first seqs h hs =
    let a =
      track_all-Accounts first ((first + 1) % 65536) (track new first) seqs (first-Accounts first h)
        hs in
    (a.0, a.1.expects, a.1.named, a.1.balance, omega (arith, track_all-rx_count new (first ∷ seqs)))

-- `n` numbers in order from `first`, wrapping at 16 bits.
abbrev pub in_order : ℕ → ℕ → List ℕ
in_order first zero = []
in_order first (suc n) = first ∷ in_order ((first + 1) % 65536) n

pub length-in_order : (first n : ℕ) → length (in_order first n) ≡ n
length-in_order first zero = refl
length-in_order first (suc n) = ap suc (length-in_order ((first + 1) % 65536) n)

track_expected :
    (e : ℕ) (t : SequenceTracker)
    → t.expected ≡ some e
    → let r = track t e in
      (r.expected ≡ some ((e + 1) % 65536))
      × (r.drops ≡ t.drops)
      × (r.out_of_order ≡ t.out_of_order)
      × (r.gaps ≡ t.gaps)
unfolding track
track_expected e t h = (ground (arith, h), ground (arith, h), ground (arith, h), ground (arith, h))

clean_tail :
    (e n : ℕ) (t : SequenceTracker)
    → t.expected ≡ some e
    → let r = track_all t (in_order e n) in
      (r.drops ≡ t.drops) × (r.out_of_order ≡ t.out_of_order) × (r.gaps ≡ t.gaps)
unfolding track_all
clean_tail e zero t h = (refl, refl, refl)
clean_tail e (suc n) t h =
    let now = track_expected e t h in
    let later = clean_tail ((e + 1) % 65536) n (track t e) now.0 in
    (later.0 ∙ now.1, later.1 ∙ now.2, later.2 ∙ now.3)

-- Numbers that come in order leave nothing dropped, out of order or missing, however often they
-- wrap.
pub track_all-in_order :
    (first n : ℕ)
    → let t = track_all new (in_order first n) in
      (t.drops ≡ 0) × (t.out_of_order ≡ 0) × (t.gaps ≡ []) × (t.rx_count ≡ n)
unfolding track_all track new
track_all-in_order first zero = (refl, refl, refl, refl)
track_all-in_order first (suc n) =
    let rest = in_order ((first + 1) % 65536) n in
    let later = clean_tail ((first + 1) % 65536) n (track new first) refl in
    let counted = track_all-rx_count (track new first) rest in
    (later.0, later.1, later.2, omega (arith, counted, length-in_order ((first + 1) % 65536) n))
