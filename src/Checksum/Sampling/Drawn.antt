-- ===== src/Checksum/Sampling/Drawn.antt =====
-- sampling.rs: that the payloads chosen are frames of the population.
use wiretap_lib_rs.Base.{
  ℕ, zero, suc, ◌-◌, ◌≤◌, ◌<◌, max, true, false, ◌||◌, Option, none, some, List, [], ◌∷◌, ◌++◌,
  ◌>>=◌, map, length, take, get_elem?, leb, ◌==◌, ◌≡◌, All, arith,
}
use mathlib.Core.Path.{subst}
use wiretap_lib_rs.Checksum.Sampling.{
  hamming_distance, is_empty, has_seen, usable, step_by, div_ceil, not_seen, deduplicate, farthest,
  brought_nearer, choose_more, spread, diverse_samples, strided_samples, max_pool,
}
use wiretap_lib_rs.Checksum.Sampling.Distinct.{
  IsDistinct, if_holds, option_holds, deduplicate-IsDistinct, spread-IsDistinct, length-spread,
  same_payload_refl,
}

-- The payload is not empty and is one of the frames.
abbrev pub IsSample : List (List ℕ) → List ℕ → Type 0
IsSample frames f = (is_empty f ≡ false) × (has_seen f frames ≡ true)

found :
    (pool : List (List ℕ)) (held : Option ℕ) (next : List ℕ)
    → (held >>= get_elem? pool) ≡ some next
    → (i : ℕ) × (get_elem? pool i ≡ some next)
found pool none next e = ground arith
found pool (some i) next e = (i, e)

module _ (P : List ℕ → Type 0) where
  All-append : (fs gs : List (List ℕ)) → All P fs → All P gs → All P (fs ++ gs)
  All-append [] gs h k = k
  All-append (f ∷ fs) gs (a, h) k = (a, All-append fs gs h k)

  All-get : (fs : List (List ℕ)) (i : ℕ) (f : List ℕ) → All P fs → get_elem? fs i ≡ some f → P f
  All-get [] i f h e = ground arith
  All-get (g ∷ fs) zero f (a, h) e = subst P (ground arith) a
  All-get (g ∷ fs) (suc i) f (a, h) e = All-get fs i f h e

  All-take : (n : ℕ) (fs : List (List ℕ)) → All P fs → All P (take n fs)
  All-take zero fs h = tt
  All-take (suc n) [] h = tt
  All-take (suc n) (f ∷ fs) (a, h) = (a, All-take n fs h)

  All-usable : (fs : List (List ℕ)) → All P fs → All P (usable fs)
  All-usable [] h = tt
  All-usable (f ∷ fs) (a, h) =
      if_holds (All P) (is_empty f) (usable fs) (f ∷ usable fs) (λ _. All-usable fs h)
        (λ _. (a, All-usable fs h))

  All-step_by : (stride skip : ℕ) (fs : List (List ℕ)) → All P fs → All P (step_by stride skip fs)
  All-step_by stride skip [] h = tt
  All-step_by stride zero (f ∷ fs) (a, h) = (a, All-step_by stride (stride - 1) fs h)
  All-step_by stride (suc skip) (f ∷ fs) (a, h) = All-step_by stride skip fs h

  All-strided_samples :
      (fs : List (List ℕ)) (limit : ℕ) → All P fs → All P (strided_samples fs limit)
  unfolding strided_samples
  All-strided_samples fs limit h =
      let stride = max (div_ceil (length (usable fs)) limit) 1 in
      if_holds (All P) (limit == 0) [] (take limit (step_by stride 0 (usable fs))) (λ _. tt)
        (λ _.
          All-take limit (step_by stride 0 (usable fs))
            (All-step_by stride 0 (usable fs) (All-usable fs h)))

  All-not_seen :
      (seen fs : List (List ℕ)) → All (λ f. is_empty f ≡ false → P f) fs → All P (not_seen seen fs)
  All-not_seen seen [] h = tt
  All-not_seen seen (f ∷ fs) (a, h) =
      if_holds (All P) (is_empty f || has_seen f seen) (not_seen seen fs)
        (f ∷ not_seen (f ∷ seen) fs) (λ _. All-not_seen seen fs h)
        (λ kept. (a (ground arith), All-not_seen (f ∷ seen) fs h))

  All-choose_more :
      (n : ℕ) (pool chosen : List (List ℕ)) (nearest : List ℕ)
      → All P pool
      → All P chosen
      → All P (choose_more n pool chosen nearest)
  All-choose_more zero pool chosen nearest h k = k
  All-choose_more (suc n) pool chosen nearest h k =
      option_holds (All P) (farthest nearest >>= get_elem? pool) chosen
        (λ next. choose_more n pool (chosen ++ next ∷ []) (brought_nearer next nearest pool)) k
        (λ next e.
          let (i, at_i) = found pool (farthest nearest) next e in
          All-choose_more n pool (chosen ++ next ∷ []) (brought_nearer next nearest pool) h
            (All-append chosen (next ∷ []) k (All-get pool i next h at_i, tt)))

  All-spread : (limit : ℕ) (pool : List (List ℕ)) → All P pool → All P (spread limit pool)
  All-spread limit [] h = tt
  All-spread limit (p ∷ pool) (a, h) =
      All-choose_more (limit - 1) (p ∷ pool) (p ∷ []) (map (λ f. hamming_distance f p) (p ∷ pool))
        (a, h) (a, tt)

has_seen-each :
    (frames fs : List (List ℕ))
    → ((f : List ℕ) → has_seen f fs ≡ true → has_seen f frames ≡ true)
    → All (λ f. is_empty f ≡ false → IsSample frames f) fs
has_seen-each frames [] h = tt
has_seen-each frames (f ∷ fs) h = (
  λ e. (e, h f (ground (arith, same_payload_refl f))),
  has_seen-each frames fs (λ g k. h g (ground arith)),
)

deduplicate-IsSample : (frames : List (List ℕ)) → All (IsSample frames) (deduplicate frames)
unfolding deduplicate
deduplicate-IsSample frames =
    All-not_seen (IsSample frames) [] frames (has_seen-each frames frames (λ f e. e))

-- Under a limit that is not 0 the samples for a solver are at most so many, and they are frames of
-- the population that are not empty and differ from each other.
pub diverse_samples-IsDistinct :
    (frames : List (List ℕ)) (limit : ℕ)
    → 0 < limit
    → All (IsSample frames) (diverse_samples frames limit)
      × IsDistinct (diverse_samples frames limit)
      × (length (diverse_samples frames limit) ≤ limit)
unfolding diverse_samples
diverse_samples-IsDistinct frames limit h =
    let pool = strided_samples (deduplicate frames) max_pool in
    let drawn = deduplicate-IsSample frames in
    if_holds
      (λ samples. All (IsSample frames) samples × IsDistinct samples × (length samples ≤ limit))
      (limit == 0 || leb (length (deduplicate frames)) limit) (deduplicate frames)
      (spread limit pool) (λ few. (drawn, deduplicate-IsDistinct frames, ground arith))
      (λ _. (
        All-spread (IsSample frames) limit pool
            (All-strided_samples (IsSample frames) (deduplicate frames) max_pool drawn),
        spread-IsDistinct limit pool,
        length-spread limit pool h,
      ))
