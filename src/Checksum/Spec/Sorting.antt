-- ===== src/Checksum/Spec/Sorting.antt =====
-- spec.rs: sorting results by the index of their spec.
use mathlib.Core.List.{Permᴰ}
use wiretap_lib_rs.Base.{
  ℕ, zero, suc, ◌+◌, ◌≤◌, true, ◌≡◌, refl, sym, ap, ◌∙◌, List, [], ◌∷◌, ◌++◌, leb, arith, inl, inr,
  ◌⊎◌,
}
use wiretap_lib_rs.Checksum.Spec.{ChecksumSpecResult, insert, sort_by_key}

-- What a function gives for each index, in order.
abbrev pub flat : (ℕ → List ChecksumSpecResult) → List ℕ → List ChecksumSpecResult
flat e [] = []
flat e (i ∷ is) = e i ++ flat e is

-- The numbers from one on, so many of them.
abbrev pub indices : ℕ → ℕ → List ℕ
indices i zero = []
indices i (suc n) = i ∷ indices (i + 1) n

-- A function gives for an index nothing, or one result of that index.
abbrev pub IsEntry : (ℕ → List ChecksumSpecResult) → Type 0
IsEntry e = (i : ℕ) → (e i ≡ []) ⊎ ((r : ChecksumSpecResult) × (e i ≡ r ∷ []) × (r.spec_index ≡ i))

insert_comm :
    (r s : ChecksumSpecResult) (xs : List ChecksumSpecResult)
    → (r.spec_index ≡ s.spec_index → r ≡ s)
    → insert r (insert s xs) ≡ insert s (insert r xs)
unfolding insert
insert_comm r s [] h = ground (arith, h)
insert_comm r s (x ∷ xs) h = ground (arith, h, insert_comm r s xs h)

-- Results that are inserted from the last on.
abbrev place : List ChecksumSpecResult → List ChecksumSpecResult → List ChecksumSpecResult
place [] xs = xs
place (r ∷ rs) xs = insert r (place rs xs)

sort_by_key-append :
    (rs xs : List ChecksumSpecResult) → sort_by_key (rs ++ xs) ≡ place rs (sort_by_key xs)
unfolding sort_by_key
sort_by_key-append [] xs = refl
sort_by_key-append (r ∷ rs) xs = ap (insert r) (sort_by_key-append rs xs)

place_comm :
    (e : ℕ → List ChecksumSpecResult) (i j : ℕ) (xs : List ChecksumSpecResult)
    → IsEntry e
    → place (e i) (place (e j) xs) ≡ place (e j) (place (e i) xs)
place_comm e i j xs h = elim (h i) [
  | inl p ↦ rw p refl
  | inr (r, p, at_i) ↦ elim (h j) [
    | inl q ↦ rw q refl
    | inr (s, q, at_j) ↦ rw (p, q) (insert_comm r s xs (same r s p at_i q at_j))
  ]
]
  where
    same :
        (r s : ChecksumSpecResult)
        → e i ≡ r ∷ []
        → r.spec_index ≡ i
        → e j ≡ s ∷ []
        → s.spec_index ≡ j
        → r.spec_index ≡ s.spec_index
        → r ≡ s
    same r s p at_i q at_j k =
        let index : i ≡ j = sym at_i ∙ k ∙ at_j in
        let results : r ∷ [] ≡ s ∷ [] = sym p ∙ ap e index ∙ q in cc

-- The results of equal indices being equal, their order does not matter to the sort.
pub sort_by_key-flat-perm :
    (e : ℕ → List ChecksumSpecResult)
    → IsEntry e
    → {is js : List ℕ} → Permᴰ is js
    → sort_by_key (flat e is) ≡ sort_by_key (flat e js)
sort_by_key-flat-perm e h Permᴰ.nil = refl
sort_by_key-flat-perm e h (Permᴰ.cons {a = a} {b = b} {l₁ = is} {l₂ = js} p d) =
    sort_by_key-append (e a) (flat e is)
    ∙ ap (place (e a)) (sort_by_key-flat-perm e h d)
    ∙ ap (λ i. place (e i) (sort_by_key (flat e js))) p
    ∙ sym (sort_by_key-append (e b) (flat e js))
sort_by_key-flat-perm e h (Permᴰ.swap {a = a} {b = b} {a' = a'} {b' = b'} {l = is} p q) =
    two a b is
    ∙ place_comm e a b (sort_by_key (flat e is)) h
    ∙ ap (λ i. place (e i) (place (e a) (sort_by_key (flat e is)))) q
    ∙ ap (λ i. place (e a') (place (e i) (sort_by_key (flat e is)))) p
    ∙ sym (two a' b' is)
  where
    two :
        (i j : ℕ) (ks : List ℕ)
        → sort_by_key (flat e (i ∷ j ∷ ks)) ≡ place (e i) (place (e j) (sort_by_key (flat e ks)))
    two i j ks =
        sort_by_key-append (e i) (flat e (j ∷ ks))
        ∙ ap (place (e i)) (sort_by_key-append (e j) (flat e ks))
sort_by_key-flat-perm e h (Permᴰ.trans d k) =
    sort_by_key-flat-perm e h d ∙ sort_by_key-flat-perm e h k

insert_front :
    (e : ℕ → List ChecksumSpecResult) (r : ChecksumSpecResult) (i n : ℕ)
    → IsEntry e
    → r.spec_index ≤ i
    → insert r (flat e (indices i n)) ≡ r ∷ flat e (indices i n)
unfolding insert
insert_front e r i zero h b = refl
insert_front e r i (suc n) h b = elim (h i) [
  | inl p ↦ rw (p) (insert_front e r (i + 1) n h (omega arith))
  | inr (s, p, at_i) ↦
      let first : leb r.spec_index s.spec_index ≡ true = ground (arith, b, at_i) in
      rw (p) (rw (first) refl)
]

-- Results in the order of their indices are sorted.
pub sort_by_key-flat-indices :
    (e : ℕ → List ChecksumSpecResult) (i n : ℕ)
    → IsEntry e
    → sort_by_key (flat e (indices i n)) ≡ flat e (indices i n)
unfolding sort_by_key
sort_by_key-flat-indices e i zero h = refl
sort_by_key-flat-indices e i (suc n) h =
    let later = sort_by_key-flat-indices e (i + 1) n h in
    sort_by_key-append (e i) (flat e (indices (i + 1) n)) ∙ ap (place (e i)) later ∙ elim (h i) [
      | inl p ↦ rw (p) refl
      | inr (s, p, at_i) ↦ rw (p) (insert_front e s (i + 1) n h (omega (arith, at_i)))
    ]
