-- ===== src/Checksum/Sampling/Farthest.antt =====
-- sampling.rs: the payload farthest from what is chosen is none of it.
use wiretap_lib_rs.Base.{
  ℕ, zero, suc, ◌+◌, ◌/◌, ◌≤◌, ◌<◌, bit_xor, min, Bool, true, false, ◌>>=◌, Option, none, some,
  List, [], ◌∷◌, ◌++◌, map, get_elem?, ltb, leb, if◌then◌else◌, ◌≡◌, ◌≢◌, refl, sym, ap, ◌∙◌, All,
  arith, Bool-cases, Option-cases, inl, inr, ltb→lt,
}
use wiretap_lib_rs.Base.Bits.{bit_xor_digit}
use mathlib.Core.Path.{subst}
use wiretap_lib_rs.Checksum.Sampling.{
  count_ones, differing_bits, abs_diff, hamming_distance, max_from, farther, farthest,
  brought_nearer,
}

-- No payload of the list is `f`.
abbrev pub IsFresh : List ℕ → List (List ℕ) → Type 0
IsFresh f = All (λ g. g ≢ f)

xor_same : (n x : ℕ) → x ≤ n → bit_xor x x ≡ 0
xor_same zero x h = ground arith
xor_same (suc n) zero h = refl
xor_same (suc n) (suc x) h =
    omega (arith, bit_xor_digit (suc x) (suc x), xor_same n (suc x / 2) (omega arith))

ones_of_zero : (w : ℕ) → count_ones w 0 ≡ 0
ones_of_zero zero = refl
ones_of_zero (suc w) = omega (arith, ones_of_zero w)

differing_bits_same : (f : List ℕ) → differing_bits f f ≡ 0
differing_bits_same [] = refl
differing_bits_same (x ∷ f) =
    omega
      (arith, ap (count_ones 8) (xor_same x x (omega arith)), ones_of_zero 8, differing_bits_same f)

hamming_distance_same : (f : List ℕ) → hamming_distance f f ≡ 0
unfolding hamming_distance abs_diff
hamming_distance_same f = omega (arith, differing_bits_same f)

-- A distance held for a pool entry is at most that to each payload chosen.
abbrev pub AreNear : List (List ℕ) → List ℕ → List (List ℕ) → Type 0
AreNear chosen [] pool = Unit
AreNear chosen (d ∷ ds) [] = Unit
AreNear chosen (d ∷ ds) (p ∷ pool) =
    All (λ c. d ≤ hamming_distance p c) chosen × AreNear chosen ds pool

AreNear-get :
    (chosen : List (List ℕ)) (ds : List ℕ) (pool : List (List ℕ)) (i d : ℕ) (p : List ℕ)
    → AreNear chosen ds pool
    → get_elem? ds i ≡ some d
    → get_elem? pool i ≡ some p
    → All (λ c. d ≤ hamming_distance p c) chosen
AreNear-get chosen [] pool i d p n e f = ground arith
AreNear-get chosen (x ∷ ds) [] i d p n e f = ground arith
AreNear-get chosen (x ∷ ds) (q ∷ pool) zero d p (n, _) e f =
    let distance : x ≡ d = ground arith in
    let entry : q ≡ p = ground arith in
    subst (λ t. All (λ c. t ≤ hamming_distance p c) chosen) distance
      (subst (λ t. All (λ c. x ≤ hamming_distance t c) chosen) entry n)
AreNear-get chosen (x ∷ ds) (q ∷ pool) (suc i) d p (_, n) e f =
    AreNear-get chosen ds pool i d p n e f

near_append :
    (d e : ℕ) (p next : List ℕ) (chosen : List (List ℕ))
    → e ≤ d
    → e ≤ hamming_distance p next
    → All (λ c. d ≤ hamming_distance p c) chosen
    → All (λ c. e ≤ hamming_distance p c) (chosen ++ next ∷ [])
near_append d e p next [] h k n = (k, tt)
near_append d e p next (c ∷ chosen) h k (m, n) = (omega arith, near_append d e p next chosen h k n)

pub AreNear-brought_nearer :
    (chosen : List (List ℕ)) (ds : List ℕ) (pool : List (List ℕ)) (next : List ℕ)
    → AreNear chosen ds pool
    → AreNear (chosen ++ next ∷ []) (brought_nearer next ds pool) pool
AreNear-brought_nearer chosen [] pool next n = tt
AreNear-brought_nearer chosen (d ∷ ds) [] next n = tt
AreNear-brought_nearer chosen (d ∷ ds) (p ∷ pool) next (m, n) = (
  near_append d (min d (hamming_distance p next)) p next chosen (omega arith) (omega arith) m,
  AreNear-brought_nearer chosen ds pool next n,
)

pub AreNear-first :
    (p : List ℕ) (pool : List (List ℕ))
    → AreNear (p ∷ []) (map (λ f. hamming_distance f p) pool) pool
AreNear-first p [] = tt
AreNear-first p (q ∷ pool) = ((omega arith, tt), AreNear-first p pool)

IsFresh-of_near :
    (d : ℕ) (p : List ℕ) (chosen : List (List ℕ))
    → 0 < d
    → All (λ c. d ≤ hamming_distance p c) chosen
    → IsFresh p chosen
IsFresh-of_near d p [] h n = tt
IsFresh-of_near d p (c ∷ chosen) h (m, n) = (
  λ (e : c ≡ p). omega (arith, ap (hamming_distance p) e, hamming_distance_same p),
  IsFresh-of_near d p chosen h n,
)

-- An entry held with its distance stands in the list.
abbrev Holds : List ℕ → Option (ℕ × ℕ) → Type 0
Holds all none = Unit
Holds all (some (j, e)) = get_elem? all j ≡ some e

Holds-if :
    (all : List ℕ) (b : Bool) (x y : ℕ × ℕ)
    → Holds all (some x)
    → Holds all (some y)
    → Holds all (some (if b then x else y))
Holds-if all true x y h k = h
Holds-if all false x y h k = k

max_from-Holds :
    (all ds : List ℕ) (i : ℕ) (best : Option (ℕ × ℕ))
    → ((k : ℕ) → get_elem? all (i + k) ≡ get_elem? ds k)
    → Holds all best
    → Holds all (max_from i best ds)
max_from-Holds all [] i best h b = b
max_from-Holds all (d ∷ ds) i none h b =
    max_from-Holds all ds (suc i) (some (i, d)) (λ k. ap (get_elem? all) (omega arith) ∙ h (suc k))
      (ap (get_elem? all) (omega arith) ∙ h 0)
max_from-Holds all (d ∷ ds) i (some (j, e)) h b =
    max_from-Holds all ds (suc i) (some (if leb e d then (i, d) else (j, e)))
      (λ k. ap (get_elem? all) (omega arith) ∙ h (suc k))
      (Holds-if all (leb e d) (i, d) (j, e) (ap (get_elem? all) (omega arith) ∙ h 0) b)

farther-get :
    (all : List ℕ) (held : Option (ℕ × ℕ)) (i : ℕ)
    → Holds all held
    → farther held ≡ some i
    → (d : ℕ) × (get_elem? all i ≡ some d) × (0 < d)
farther-get all none i h e = ground arith
farther-get all (some (j, d)) i h e = elim (Bool-cases (ltb 0 d)) [
  | inl pos ↦ (d, ap (get_elem? all) (ground arith) ∙ h, ltb→lt 0 d pos)
  | inr none_left ↦ ground arith
]

farthest-get :
    (nearest : List ℕ) (i : ℕ)
    → farthest nearest ≡ some i
    → (d : ℕ) × (get_elem? nearest i ≡ some d) × (0 < d)
unfolding farthest
farthest-get nearest i e =
    farther-get nearest (max_from 0 none nearest) i
      (max_from-Holds nearest nearest 0 none (λ k. ap (get_elem? nearest) (omega arith)) tt) e

-- What is chosen next is none of the payloads chosen.
pub farthest-IsFresh :
    (chosen : List (List ℕ)) (nearest : List ℕ) (pool : List (List ℕ)) (next : List ℕ)
    → AreNear chosen nearest pool
    → (farthest nearest >>= get_elem? pool) ≡ some next
    → IsFresh next chosen
farthest-IsFresh chosen nearest pool next n e = elim (Option-cases (farthest nearest)) [
  | inl stop ↦
      let nothing : none ≡ some next = ap (λ o. o >>= get_elem? pool) (sym stop) ∙ e in ground arith
  | inr (i, at_i) ↦
      let (d, held, positive) = farthest-get nearest i at_i in
      IsFresh-of_near d next chosen positive (
        AreNear-get chosen nearest pool i d next n held
          (ap (λ o. o >>= get_elem? pool) (sym at_i) ∙ e))
]
