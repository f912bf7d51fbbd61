-- ===== src/Checksum/Sampling.antt =====
-- sampling.rs: choosing which frames to solve against. Distances and lengths are below 2 ^ 32.
mod Farthest
pub mod Distinct
pub mod Drawn
use wiretap_lib_rs.Base.{
  ℕ, zero, suc, ◌+◌, ◌-◌, ◌*◌, ◌/◌, ◌%◌, bit_xor, min, max, Bool, true, false, ◌&&◌, ◌||◌, ◌>>=◌,
  Option, none, some, List, [], ◌∷◌, ◌++◌, map, length, take, get_elem?, ltb, leb, ◌==◌,
  if◌then◌else◌,
}

unfoldable pub max_pool : ℕ
max_pool = 2048

-- `count_ones` of a number of `w` bits.
abbrev pub count_ones : ℕ → ℕ → ℕ
count_ones zero value = 0
count_ones (suc w) value = value % 2 + count_ones w (value / 2)

abbrev pub differing_bits : List ℕ → List ℕ → ℕ
differing_bits [] b = 0
differing_bits (x ∷ xs) [] = 0
differing_bits (x ∷ xs) (y ∷ ys) = count_ones 8 (bit_xor x y) + differing_bits xs ys

unfoldable pub abs_diff : ℕ → ℕ → ℕ
abs_diff a b = (a - b) + (b - a)

unfoldable pub hamming_distance : List ℕ → List ℕ → ℕ
hamming_distance a b = differing_bits a b + abs_diff (length a) (length b) * 8

abbrev pub is_empty : List ℕ → Bool
is_empty [] = true
is_empty (x ∷ xs) = false

-- The frames that are not empty.
abbrev pub usable : List (List ℕ) → List (List ℕ)
usable [] = []
usable (f ∷ fs) = let rest = usable fs in if is_empty f then rest else f ∷ rest

-- `step_by`: an element when none is left to skip, then `stride - 1` skipped.
abbrev pub step_by : ℕ → ℕ → List (List ℕ) → List (List ℕ)
step_by stride skip [] = []
step_by stride zero (f ∷ fs) = f ∷ step_by stride (stride - 1) fs
step_by stride (suc skip) (f ∷ fs) = step_by stride skip fs

unfoldable pub div_ceil : ℕ → ℕ → ℕ
div_ceil n m = (n + (m - 1)) / m

unfoldable pub strided_samples : List (List ℕ) → ℕ → List (List ℕ)
strided_samples frames limit =
    if limit == 0
    then []
    else take limit (step_by (max (div_ceil (length (usable frames)) limit) 1) 0 (usable frames))

abbrev pub same_payload : List ℕ → List ℕ → Bool
same_payload [] [] = true
same_payload [] (y ∷ ys) = false
same_payload (x ∷ xs) [] = false
same_payload (x ∷ xs) (y ∷ ys) = x == y && same_payload xs ys

abbrev pub has_seen : List ℕ → List (List ℕ) → Bool
has_seen f [] = false
has_seen f (g ∷ seen) = same_payload g f || has_seen f seen

-- The filter of `deduplicate`, with the payloads seen so far.
abbrev pub not_seen : List (List ℕ) → List (List ℕ) → List (List ℕ)
not_seen seen [] = []
not_seen seen (f ∷ fs) =
    let unchanged = not_seen seen fs in
    let fresh = not_seen (f ∷ seen) fs in
    if is_empty f || has_seen f seen then unchanged else f ∷ fresh

unfoldable pub deduplicate : List (List ℕ) → List (List ℕ)
deduplicate frames = not_seen [] frames

-- `max_by_key` over the enumerated distances: of the largest ones the last. It has gone through the
-- entries below `i`, of which `best` is the one it holds.
abbrev pub max_from : ℕ → Option (ℕ × ℕ) → List ℕ → Option (ℕ × ℕ)
max_from i best [] = best
max_from i none (d ∷ ds) = max_from (suc i) (some (i, d)) ds
max_from i (some (j, e)) (d ∷ ds) = max_from (suc i) (some (if leb e d then (i, d) else (j, e))) ds

-- The entry farthest from what is chosen, unless its distance is 0.
abbrev pub farther : Option (ℕ × ℕ) → Option ℕ
farther none = none
farther (some (i, d)) = if ltb 0 d then some i else none

unfoldable pub farthest : List ℕ → Option ℕ
farthest nearest = farther (max_from 0 none nearest)

-- The distances after a payload is chosen.
abbrev pub brought_nearer : List ℕ → List ℕ → List (List ℕ) → List ℕ
brought_nearer next [] pool = []
brought_nearer next (d ∷ ds) [] = d ∷ ds
brought_nearer next (d ∷ ds) (p ∷ pool) =
    min d (hamming_distance p next) ∷ brought_nearer next ds pool

-- The loop, which may choose as many more payloads as are missing to the limit. An index out of
-- range, which does not arise, would panic.
abbrev pub choose_more : ℕ → List (List ℕ) → List (List ℕ) → List ℕ → List (List ℕ)
choose_more zero pool chosen nearest = chosen
choose_more (suc n) pool chosen nearest = elim (farthest nearest >>= get_elem? pool) [
  | none ↦ chosen
  | some next ↦ choose_more n pool (chosen ++ next ∷ []) (brought_nearer next nearest pool)
]

-- What is chosen from a pool. An empty pool, which does not arise, would panic.
abbrev pub spread : ℕ → List (List ℕ) → List (List ℕ)
spread limit [] = []
spread limit (p ∷ pool) =
    choose_more (limit - 1) (p ∷ pool) (p ∷ []) (map (λ f. hamming_distance f p) (p ∷ pool))

unfoldable pub diverse_samples : List (List ℕ) → ℕ → List (List ℕ)
diverse_samples frames limit =
    let distinct = deduplicate frames in
    if limit == 0 || leb (length distinct) limit
    then distinct
    else spread limit (strided_samples distinct max_pool)
