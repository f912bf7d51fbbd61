-- ===== src/TestPattern/Latency.antt =====
-- testpattern.rs: round-trip samples and their percentiles. A sum of samples wraps at 64 bits.
pub mod Percentiles
use wiretap_lib_rs.Base.{
  ℕ, ◌+◌, ◌-◌, ◌*◌, ◌/◌, ◌%◌, ◌^◌, min, max, Option, none, some, List, [], ◌∷◌, ◌++◌, length, leb,
  if◌then◌else◌,
}
use wiretap_lib_rs.Base.Bytes.{at}

pub record LatencyStats : Type 0 where
  pub min_us : ℕ
  pub max_us : ℕ
  pub mean_us : ℕ
  pub p50_us : ℕ
  pub p95_us : ℕ
  pub p99_us : ℕ
  pub count : ℕ

pub record Latencies : Type 0 where
  pub samples : List ℕ

abbrev pub new : Latencies
new = record { samples = [] }

unfoldable pub record_sample : Latencies → ℕ → Latencies
record_sample l rtt_us = record { samples = l.samples ++ (rtt_us ∷ []) }

unfoldable pub insert : ℕ → List ℕ → List ℕ
insert x [] = x ∷ []
insert x (y ∷ ys) = let rest = insert x ys in if leb x y then x ∷ y ∷ ys else y ∷ rest

-- `sort_unstable`: for numbers, every sort gives the same list.
unfoldable pub sort : List ℕ → List ℕ
unfolding insert
sort [] = []
sort (x ∷ xs) = insert x (sort xs)

-- `sum` on 64 bits, where it wraps.
abbrev pub sum : List ℕ → ℕ
sum [] = 0
sum (x ∷ xs) = (x + sum xs) % 2 ^ 64

abbrev pub div_ceil : ℕ → ℕ → ℕ
div_ceil a b = (a + (b - 1)) / b

-- The `p`-th percentile of sorted samples.
unfoldable pub rank : List ℕ → ℕ → ℕ
rank s p = at s (min (max (div_ceil (length s * p) 100) 1 - 1) (length s - 1))

-- The statistics of sorted samples.
unfoldable pub summary : List ℕ → LatencyStats
unfolding rank
summary s = record {
  min_us = at s 0;
  max_us = at s (length s - 1);
  mean_us = sum s / length s;
  p50_us = rank s 50;
  p95_us = rank s 95;
  p99_us = rank s 99;
  count = length s;
}

unfoldable pub stats : Latencies → Option LatencyStats
unfolding sort summary
stats l = elim l.samples [ [] ↦ none | x ∷ xs ↦ some (summary (sort (x ∷ xs))) ]
