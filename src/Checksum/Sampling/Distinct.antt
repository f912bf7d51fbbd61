-- ===== src/Checksum/Sampling/Distinct.antt =====
-- sampling.rs: that the payloads chosen differ from each other.
use wiretap_lib_rs.Base.{
  ℕ, zero, suc, ◌+◌, ◌-◌, ◌≤◌, ◌<◌, Bool, true, false, ◌||◌, ◌>>=◌, Option, none, some, List, [],
  ◌∷◌, ◌++◌, map, length, get_elem?, if◌then◌else◌, ◌≡◌, ◌≢◌, refl, sym, ap, arith, length-append,
}
use wiretap_lib_rs.Checksum.Sampling.{
  hamming_distance, is_empty, same_payload, has_seen, not_seen, deduplicate, farthest,
  brought_nearer, choose_more, spread,
}
use wiretap_lib_rs.Checksum.Sampling.Farthest.{
  IsFresh, AreNear, AreNear-brought_nearer, AreNear-first, farthest-IsFresh,
}

-- The payloads of the list differ from each other.
abbrev pub IsDistinct : List (List ℕ) → Type 0
IsDistinct [] = Unit
IsDistinct (f ∷ fs) = IsFresh f fs × IsDistinct fs

pub same_payload_refl : (f : List ℕ) → same_payload f f ≡ true
same_payload_refl [] = refl
same_payload_refl (x ∷ f) = ground (arith, same_payload_refl f)

IsFresh-append :
    (f g : List ℕ) (fs : List (List ℕ)) → IsFresh f fs → g ≢ f → IsFresh f (fs ++ g ∷ [])
IsFresh-append f g [] h ne = (ne, tt)
IsFresh-append f g (x ∷ fs) (a, h) ne = (a, IsFresh-append f g fs h ne)

IsDistinct-append :
    (f : List ℕ) (fs : List (List ℕ)) → IsDistinct fs → IsFresh f fs → IsDistinct (fs ++ f ∷ [])
IsDistinct-append f [] d h = (tt, tt)
IsDistinct-append f (x ∷ fs) (a, d) (ne, h) =
    (IsFresh-append x f fs a (λ e. ne (sym e)), IsDistinct-append f fs d h)

pub if_holds :
    (P : List (List ℕ) → Type 0) (b : Bool) (xs ys : List (List ℕ))
    → (b ≡ true → P xs)
    → (b ≡ false → P ys)
    → P (if b then xs else ys)
if_holds P true xs ys h k = h refl
if_holds P false xs ys h k = k refl

not_seen-IsFresh :
    (f : List ℕ) (seen fs : List (List ℕ)) → has_seen f seen ≡ true → IsFresh f (not_seen seen fs)
not_seen-IsFresh f seen [] h = tt
not_seen-IsFresh f seen (g ∷ fs) h =
    if_holds (IsFresh f) (is_empty g || has_seen g seen) (not_seen seen fs)
      (g ∷ not_seen (g ∷ seen) fs) (λ _. not_seen-IsFresh f seen fs h)
      (λ kept. (
        λ (e : g ≡ f). ground (arith, ap (λ t. has_seen t seen) e),
        not_seen-IsFresh f (g ∷ seen) fs (ground arith),
      ))

not_seen-IsDistinct : (seen fs : List (List ℕ)) → IsDistinct (not_seen seen fs)
not_seen-IsDistinct seen [] = tt
not_seen-IsDistinct seen (f ∷ fs) =
    if_holds IsDistinct (is_empty f || has_seen f seen) (not_seen seen fs)
      (f ∷ not_seen (f ∷ seen) fs) (λ _. not_seen-IsDistinct seen fs)
      (λ _. (
        not_seen-IsFresh f (f ∷ seen) fs (ground (arith, same_payload_refl f)),
        not_seen-IsDistinct (f ∷ seen) fs,
      ))

pub deduplicate-IsDistinct : (frames : List (List ℕ)) → IsDistinct (deduplicate frames)
unfolding deduplicate
deduplicate-IsDistinct frames = not_seen-IsDistinct [] frames

pub option_holds :
    (P : List (List ℕ) → Type 0) (o : Option (List ℕ)) (xs : List (List ℕ))
    (f : List ℕ → List (List ℕ))
    → P xs
    → ((next : List ℕ) → o ≡ some next → P (f next))
    → P (elim o [ none ↦ xs | some next ↦ f next ])
option_holds P none xs f h k = h
option_holds P (some next) xs f h k = k next refl

choose_more-IsDistinct :
    (n : ℕ) (pool chosen : List (List ℕ)) (nearest : List ℕ)
    → IsDistinct chosen
    → AreNear chosen nearest pool
    → IsDistinct (choose_more n pool chosen nearest)
choose_more-IsDistinct zero pool chosen nearest d a = d
choose_more-IsDistinct (suc n) pool chosen nearest d a =
    option_holds IsDistinct (farthest nearest >>= get_elem? pool) chosen
      (λ next. choose_more n pool (chosen ++ next ∷ []) (brought_nearer next nearest pool)) d
      (λ next e.
        choose_more-IsDistinct n pool (chosen ++ next ∷ []) (brought_nearer next nearest pool)
          (IsDistinct-append next chosen d (farthest-IsFresh chosen nearest pool next a e))
          (AreNear-brought_nearer chosen nearest pool next a))

length-choose_more :
    (n : ℕ) (pool chosen : List (List ℕ)) (nearest : List ℕ)
    → length (choose_more n pool chosen nearest) ≤ length chosen + n
length-choose_more zero pool chosen nearest = omega arith
length-choose_more (suc n) pool chosen nearest =
    option_holds (λ samples. length samples ≤ length chosen + suc n)
      (farthest nearest >>= get_elem? pool) chosen
      (λ next. choose_more n pool (chosen ++ next ∷ []) (brought_nearer next nearest pool))
      (omega arith)
      (λ next _. omega (
        arith,
        length-choose_more n pool (chosen ++ next ∷ []) (brought_nearer next nearest pool),
        length-append chosen (next ∷ []),
      ))

pub spread-IsDistinct : (limit : ℕ) (pool : List (List ℕ)) → IsDistinct (spread limit pool)
spread-IsDistinct limit [] = tt
spread-IsDistinct limit (p ∷ pool) =
    choose_more-IsDistinct (limit - 1) (p ∷ pool) (p ∷ [])
      (map (λ f. hamming_distance f p) (p ∷ pool)) (tt, tt) (AreNear-first p (p ∷ pool))

pub length-spread :
    (limit : ℕ) (pool : List (List ℕ)) → 0 < limit → length (spread limit pool) ≤ limit
length-spread limit [] h = omega arith
length-spread limit (p ∷ pool) h = omega (
  arith,
  length-choose_more (limit - 1) (p ∷ pool) (p ∷ []) (map (λ f. hamming_distance f p) (p ∷ pool)),
)
