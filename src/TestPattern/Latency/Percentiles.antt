-- ===== src/TestPattern/Latency/Percentiles.antt =====
-- testpattern.rs: what each statistic says of the samples.
use wiretap_lib_rs.Base.{
  ℕ, zero, suc, ◌+◌, ◌-◌, ◌*◌, ◌/◌, ◌%◌, ◌^◌, ◌≤◌, ◌<◌, min, max, ◌≡◌, refl, ap, ap₂, ◌⊎◌, none,
  some, List, [], ◌∷◌, arith, length, leb, ltb, of_bool, All, Bool-cases, inl, inr,
}
use wiretap_lib_rs.Base.Bytes.{at}
use wiretap_lib_rs.TestPattern.Latency.{
  LatencyStats, Latencies, insert, sort, sum, div_ceil, rank, summary, stats,
}

IsSorted : List ℕ → Type 0
IsSorted [] = Unit
IsSorted (x ∷ xs) = All (λ y. x ≤ y) xs × IsSorted xs

-- How many samples are at most `v`, and how many below it.
abbrev pub at_most : ℕ → List ℕ → ℕ
at_most v [] = 0
at_most v (x ∷ xs) = of_bool (leb x v) + at_most v xs

abbrev pub below : ℕ → List ℕ → ℕ
below v [] = 0
below v (x ∷ xs) = of_bool (ltb x v) + below v xs

at_least_trans : (x y : ℕ) (xs : List ℕ) → x ≤ y → All (λ z. y ≤ z) xs → All (λ z. x ≤ z) xs
at_least_trans x y [] h a = tt
at_least_trans x y (z ∷ zs) h a = (omega (arith, h, a.0), at_least_trans x y zs h a.1)

insert-All : (P : ℕ → Type 0) (x : ℕ) (xs : List ℕ) → P x → All P xs → All P (insert x xs)
unfolding insert
insert-All P x [] p a = (p, tt)
insert-All P x (y ∷ ys) p a = elim (Bool-cases (leb x y)) [
  | inl e ↦ rw (e) (p, a)
  | inr e ↦ rw (e) (a.0, insert-All P x ys p a.1)
]

insert-IsSorted : (x : ℕ) (xs : List ℕ) → IsSorted xs → IsSorted (insert x xs)
unfolding insert IsSorted
insert-IsSorted x [] h = (tt, tt)
insert-IsSorted x (y ∷ ys) h = elim (Bool-cases (leb x y)) [
  | inl e ↦ let le : x ≤ y = ground (arith, e) in rw (e) ((le, at_least_trans x y ys le h.0), h)
  | inr e ↦
      let ge : y ≤ x = ground (arith, e) in
      rw (e) (insert-All (λ z. y ≤ z) x ys ge h.0, insert-IsSorted x ys h.1)
]

sort-IsSorted : (xs : List ℕ) → IsSorted (sort xs)
unfolding sort IsSorted
sort-IsSorted [] = tt
sort-IsSorted (x ∷ xs) = insert-IsSorted x (sort xs) (sort-IsSorted xs)

module _ (w : ℕ → ℕ) (total : List ℕ → ℕ) (empty : total [] ≡ 0)
    (step : (x : ℕ) (xs : List ℕ) → total (x ∷ xs) ≡ w x + total xs) where
  total-insert : (x : ℕ) (xs : List ℕ) → total (insert x xs) ≡ w x + total xs
  unfolding insert
  total-insert x [] = step x []
  total-insert x (y ∷ ys) = elim (Bool-cases (leb x y)) [
    | inl e ↦ rw (e) (step x (y ∷ ys))
    | inr e ↦ rw (e) (omega (arith, step y (insert x ys), total-insert x ys, step y ys))
  ]

  -- A total over the samples does not depend on their order.
  total-sort : (xs : List ℕ) → total (sort xs) ≡ total xs
  unfolding sort
  total-sort [] = refl
  total-sort (x ∷ xs) = omega (arith, total-insert x (sort xs), total-sort xs, step x xs)

length-sort : (xs : List ℕ) → length (sort xs) ≡ length xs
length-sort = total-sort (λ x. 1) length refl (λ x xs. omega arith)

All-at : (P : ℕ → Type 0) (xs : List ℕ) (i : ℕ) → All P xs → i < length xs → P (at xs i)
All-at P [] i a h = absurd (omega arith)
All-at P (x ∷ xs) zero a h = a.0
All-at P (x ∷ xs) (suc i) a h = All-at P xs i a.1 (omega arith)

at_monotone : (s : List ℕ) (i j : ℕ) → IsSorted s → i ≤ j → j < length s → at s i ≤ at s j
unfolding IsSorted
at_monotone [] i j a h k = absurd (omega arith)
at_monotone (x ∷ xs) zero zero a h k = omega arith
at_monotone (x ∷ xs) zero (suc j) a h k = All-at (λ y. x ≤ y) xs j a.0 (omega arith)
at_monotone (x ∷ xs) (suc i) zero a h k = absurd (omega arith)
at_monotone (x ∷ xs) (suc i) (suc j) a h k = at_monotone xs i j a.1 (omega arith) (omega arith)

none_below : (x : ℕ) (xs : List ℕ) → All (λ y. x ≤ y) xs → below x xs ≡ 0
none_below x [] a = refl
none_below x (y ∷ ys) a = ground (arith, a.0, none_below x ys a.1)

at_most-at : (s : List ℕ) (i : ℕ) → IsSorted s → i < length s → suc i ≤ at_most (at s i) s
unfolding IsSorted
at_most-at [] i a h = absurd (omega arith)
at_most-at (x ∷ xs) zero a h = ground arith
at_most-at (x ∷ xs) (suc i) a h =
    ground (arith, at_most-at xs i a.1 (omega arith), All-at (λ y. x ≤ y) xs i a.0 (omega arith))

below-at : (s : List ℕ) (i : ℕ) → IsSorted s → i < length s → below (at s i) s ≤ i
unfolding IsSorted
below-at [] i a h = absurd (omega arith)
below-at (x ∷ xs) zero a h = ground (arith, none_below x xs a.0)
below-at (x ∷ xs) (suc i) a h = ground (arith, below-at xs i a.1 (omega arith))

-- Nearest rank: at least `p` percent of the samples are at most `v`, and fewer are below it.
abbrev pub IsPercentile : ℕ → ℕ → List ℕ → Type 0
IsPercentile p v samples =
    (length samples * p ≤ 100 * at_most v samples) × (100 * below v samples < length samples * p)

abbrev position : ℕ → ℕ → ℕ
position n m = min (max (div_ceil m 100) 1 - 1) (n - 1)

position_bounds :
    (n m : ℕ)
    → 1 ≤ m
    → m ≤ 100 * n
    → (position n m < n) × (m ≤ 100 * suc (position n m)) × (100 * position n m < m)
position_bounds n m h k = (omega arith, omega arith, omega arith)

position_monotone : (n m k : ℕ) → m ≤ k → position n m ≤ position n k
position_monotone n m k h = omega arith

rank-IsPercentile :
    (s : List ℕ) (p : ℕ)
    → IsSorted s
    → 1 ≤ length s * p
    → length s * p ≤ 100 * length s
    → IsPercentile p (rank s p) s
unfolding rank
rank-IsPercentile s p sorted h k =
    let i = position (length s) (length s * p) in
    let bounds = position_bounds (length s) (length s * p) h k in
    (
      omega (arith, at_most-at s i sorted bounds.0, bounds.1),
      omega (arith, below-at s i sorted bounds.0, bounds.2),
    )

total-at_most : (v : ℕ) (xs : List ℕ) → at_most v (sort xs) ≡ at_most v xs
total-at_most v = total-sort (λ x. of_bool (leb x v)) (at_most v) refl (λ x xs. refl)

total-below : (v : ℕ) (xs : List ℕ) → below v (sort xs) ≡ below v xs
total-below v = total-sort (λ x. of_bool (ltb x v)) (below v) refl (λ x xs. refl)

IsPercentile-sort :
    (p v : ℕ) (samples : List ℕ) → IsPercentile p v (sort samples) → IsPercentile p v samples
IsPercentile-sort p v samples h =
    let same = length-sort samples in
    let most = total-at_most v samples in
    let less = total-below v samples in ground (arith, h, same, most, less, ap (λ n. n * p) same)

abbrev pub all_time : List ℕ → ℕ
all_time [] = 0
all_time (x ∷ xs) = x + all_time xs

sum-all_time : (xs : List ℕ) → sum xs ≡ all_time xs % 2 ^ 64
sum-all_time [] = omega arith
sum-all_time (x ∷ xs) = omega (arith, sum-all_time xs)

sum-sort : (xs : List ℕ) → all_time xs < 2 ^ 64 → sum (sort xs) ≡ all_time xs
sum-sort xs h =
    omega (arith, h, sum-all_time (sort xs), total-sort (λ x. x) all_time refl (λ x xs. refl) xs)

-- What the statistics say of samples that are not empty.
pub record Describes (samples : List ℕ) (st : LatencyStats) : Type 0 where
  pub p50 : IsPercentile 50 st.p50_us samples
  pub p95 : IsPercentile 95 st.p95_us samples
  pub p99 : IsPercentile 99 st.p99_us samples
  pub min_p50 : st.min_us ≤ st.p50_us
  pub p50_p95 : st.p50_us ≤ st.p95_us
  pub p95_p99 : st.p95_us ≤ st.p99_us
  pub p99_max : st.p99_us ≤ st.max_us
  pub none_less : below st.min_us samples ≡ 0
  pub all_within : at_most st.max_us samples ≡ length samples
  pub counted : st.count ≡ length samples
  pub averaged : st.mean_us ≡ all_time samples / length samples

rank_monotone :
    (s : List ℕ) (p q : ℕ)
    → IsSorted s
    → 1 ≤ length s
    → length s * p ≤ length s * q
    → rank s p ≤ rank s q
unfolding rank
rank_monotone s p q sorted h k =
    at_monotone s (position (length s) (length s * p)) (position (length s) (length s * q)) sorted
      (position_monotone (length s) (length s * p) (length s * q) k) (omega (arith, h))

top_rank : (s : List ℕ) (p : ℕ) → IsSorted s → 1 ≤ length s → rank s p ≤ at s (length s - 1)
unfolding rank
top_rank s p sorted h =
    at_monotone s (position (length s) (length s * p)) (length s - 1) sorted (omega arith)
      (omega (arith, h))

bottom_rank : (s : List ℕ) (p : ℕ) → IsSorted s → 1 ≤ length s → at s 0 ≤ rank s p
unfolding rank
bottom_rank s p sorted h =
    at_monotone s 0 (position (length s) (length s * p)) sorted (omega arith) (omega (arith, h))

at_most-le : (v : ℕ) (xs : List ℕ) → at_most v xs ≤ length xs
at_most-le v [] = omega arith
at_most-le v (x ∷ xs) = ground (arith, at_most-le v xs)

summary-Describes :
    (samples : List ℕ)
    → 1 ≤ length samples
    → all_time samples < 2 ^ 64
    → Describes samples (summary (sort samples))
unfolding summary
summary-Describes samples h bound =
    let s = sort samples in
    let same = length-sort samples in
    let sorted = sort-IsSorted samples in
    let long : 1 ≤ length s = omega (arith, h, same) in
    let near = λ (p : ℕ) (a : 1 ≤ length s * p) (b : length s * p ≤ 100 * length s).
      IsPercentile-sort p (rank s p) samples (rank-IsPercentile s p sorted a b) in
    record {
      p50 = near 50 (omega (arith, long)) (omega arith);
      p95 = near 95 (omega (arith, long)) (omega arith);
      p99 = near 99 (omega (arith, long)) (omega arith);
      min_p50 = bottom_rank s 50 sorted long;
      p50_p95 = rank_monotone s 50 95 sorted long (omega arith);
      p95_p99 = rank_monotone s 95 99 sorted long (omega arith);
      p99_max = top_rank s 99 sorted long;
      none_less = omega (arith, total-below (at s 0) samples, below-at s 0 sorted long);
      all_within = omega (
        arith,
        same,
        total-at_most (at s (length s - 1)) samples,
        at_most-at s (length s - 1) sorted (omega (arith, long)),
        at_most-le (at s (length s - 1)) s,
      );
      counted = same;
      averaged = ap₂ (λ a b. a / b) (sum-sort samples bound) same;
    }

-- Statistics of no samples are none; of any others there are some, whose percentiles are nearest
-- ranks: at least 50, 95 or 99 percent of the samples are at most that value and fewer are below
-- it. They lie in order between the least and the greatest sample, and count and mean are those of
-- the samples, whose sum is under 2 ^ 64.
pub stats-Describes :
    (l : Latencies)
    → all_time l.samples < 2 ^ 64
    → ((l.samples ≡ []) × (stats l ≡ none))
      ⊎ ((st : LatencyStats) × (stats l ≡ some st) × Describes l.samples st)
unfolding stats
stats-Describes l bound = described l.samples bound
  where
    described :
        (xs : List ℕ)
        → all_time xs < 2 ^ 64
        → ((xs ≡ []) × (stats (record { samples = xs }) ≡ none))
          ⊎ ((st : LatencyStats) × (stats (record { samples = xs }) ≡ some st) × Describes xs st)
    described [] b = inl (refl, refl)
    described (x ∷ xs) b = inr (_, refl, summary-Describes (x ∷ xs) (omega arith) b)
