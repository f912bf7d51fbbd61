-- ===== src/Checksum/Spec/Grouping.antt =====
-- spec.rs: the groups of specs that share what is calculated.
use mathlib.Core.List.Permᴰ
use mathlib.Core.List.{Permᴰ}
use wiretap_lib_rs.Base.{
  ℕ, ◌+◌, true, ◌==◌, ◌≡◌, refl, sym, ap, ◌∙◌, some, List, [], ◌∷◌, ◌++◌, length, get_elem?,
  if◌then◌else◌, arith, All, Bool-cases, inl, inr, append_assoc, length-append,
}
use mathlib.Core.Path.{subst}
use wiretap_lib_rs.Base.Int.{same_int, same_int-eq}
use wiretap_lib_rs.Checksum.{
  ChecksumAlgorithm, xor, sum8, crc8, crc8_sae_j1850, crc8_autosar, crc8_maxim, crc8_cdma2000,
  crc8_dvb_s2, crc8_nissan, crc16_modbus, crc16_ccitt,
}
use wiretap_lib_rs.Checksum.Spec.{
  ChecksumSpec, Key, key_of, same_key, Groups, push_member, group, discriminant,
}
use wiretap_lib_rs.Checksum.Spec.Sorting.{indices}

-- The indices in all the groups.
abbrev pub all_members : Groups → List ℕ
all_members [] = []
all_members ((key, members) ∷ groups) = members ++ all_members groups

-- An index stands in the group of its spec.
abbrev pub IsMember : List ChecksumSpec → Key → ℕ → Type 0
IsMember specs key idx =
    (spec : ChecksumSpec) × (get_elem? specs idx ≡ some spec) × (key_of spec ≡ key)

abbrev pub AreGroups : List ChecksumSpec → Groups → Type 0
AreGroups specs [] = Unit
AreGroups specs ((key, members) ∷ groups) =
    All (IsMember specs key) members × AreGroups specs groups

algorithm_at : ℕ → ChecksumAlgorithm
algorithm_at n =
    if n == 0
    then xor
    else if n == 1
    then sum8
    else if n == 2
    then crc8
    else if n == 3
    then crc8_sae_j1850
    else if n == 4
    then crc8_autosar
    else if n == 5
    then crc8_maxim
    else if n == 6
    then crc8_cdma2000
    else if n == 7
    then crc8_dvb_s2
    else if n == 8
    then crc8_nissan
    else if n == 9
    then crc16_modbus
    else crc16_ccitt

algorithm_at-discriminant : (a : ChecksumAlgorithm) → algorithm_at (discriminant a) ≡ a
unfolding algorithm_at
algorithm_at-discriminant xor = refl
algorithm_at-discriminant a = refl

same_key-eq : (a b : Key) → same_key a b ≡ true → a ≡ b
unfolding same_key
same_key-eq a b h =
    let codes : discriminant a.algorithm ≡ discriminant b.algorithm = ground (arith, h) in
    let starts_same : same_int a.calc_start b.calc_start ≡ true = ground (arith, h) in
    let ends_same : same_int a.calc_end b.calc_end ≡ true = ground (arith, h) in
    let algorithms : a.algorithm ≡ b.algorithm =
      sym (algorithm_at-discriminant a.algorithm)
      ∙ ap algorithm_at codes
      ∙ algorithm_at-discriminant b.algorithm in
    let starts = same_int-eq a.calc_start b.calc_start starts_same in
    let ends = same_int-eq a.calc_end b.calc_end ends_same in
    λ i. record { algorithm = algorithms i; calc_start = starts i; calc_end = ends i }

All-snoc : (P : ℕ → Type 0) (xs : List ℕ) (x : ℕ) → All P xs → P x → All P (xs ++ (x ∷ []))
All-snoc P [] x a p = (p, tt)
All-snoc P (y ∷ ys) x a p = (a.0, All-snoc P ys x a.1 p)

push_member-AreGroups :
    (specs : List ChecksumSpec) (key : Key) (idx : ℕ) (groups : Groups)
    → AreGroups specs groups
    → IsMember specs key idx
    → AreGroups specs (push_member key idx groups)
unfolding push_member
push_member-AreGroups specs key idx [] a m = ((m, tt), tt)
push_member-AreGroups specs key idx ((k, members) ∷ groups) a m =
    elim (Bool-cases (same_key k key)) [
      | inl e ↦ rw (e) (
        All-snoc (IsMember specs k) members idx a.0
            (subst (λ x. IsMember specs x idx) (sym (same_key-eq k key e)) m),
        a.1,
      )
      | inr e ↦ rw (e) (a.0, push_member-AreGroups specs key idx groups a.1 m)
    ]

push_member-perm :
    (key : Key) (idx : ℕ) (groups : Groups)
    → Permᴰ (all_members (push_member key idx groups)) (idx ∷ all_members groups)
unfolding push_member
push_member-perm key idx [] = Permᴰ.refl (idx ∷ [])
push_member-perm key idx ((k, members) ∷ groups) = elim (Bool-cases (same_key k key)) [
  | inl e ↦ rw (e) (
      rw (append_assoc members (idx ∷ []) (all_members groups))
        (Permᴰ.middle idx members (all_members groups)))
  | inr e ↦ rw (e) (
      Permᴰ.trans (Permᴰ.append_left members (push_member-perm key idx groups))
        (Permᴰ.middle idx members (all_members groups)))
]

pub get_elem?-middle :
    (front : List ChecksumSpec) (spec : ChecksumSpec) (rest : List ChecksumSpec)
    → get_elem? (front ++ (spec ∷ rest)) (length front) ≡ some spec
get_elem?-middle [] spec rest = refl
get_elem?-middle (s ∷ front) spec rest = get_elem?-middle front spec rest

pub group-AreGroups :
    (specs front rest : List ChecksumSpec) (groups : Groups) (idx : ℕ)
    → front ++ rest ≡ specs
    → length front ≡ idx
    → AreGroups specs groups
    → AreGroups specs (group groups idx rest)
unfolding group
group-AreGroups specs front [] groups idx w e a = a
group-AreGroups specs front (spec ∷ rest) groups idx w e a =
    let found : get_elem? specs idx ≡ some spec =
      subst (λ xs. get_elem? xs idx ≡ some spec) w
        (subst (λ i. get_elem? (front ++ (spec ∷ rest)) i ≡ some spec) e
          (get_elem?-middle front spec rest)) in
    group-AreGroups specs (front ++ (spec ∷ [])) rest (push_member (key_of spec) idx groups)
      (idx + 1) (append_assoc front (spec ∷ []) rest ∙ w)
      (omega (arith, e, length-append front (spec ∷ [])))
      (push_member-AreGroups specs (key_of spec) idx groups a (spec, found, refl))

pub group-perm :
    (groups : Groups) (idx : ℕ) (specs : List ChecksumSpec)
    → Permᴰ
        (all_members (group groups idx specs))
        (indices idx (length specs) ++ all_members groups)
unfolding group
group-perm groups idx [] = Permᴰ.refl (all_members groups)
group-perm groups idx (spec ∷ specs) =
    Permᴰ.trans (group-perm (push_member (key_of spec) idx groups) (idx + 1) specs) (
      Permᴰ.trans
        (Permᴰ.append_left (indices (idx + 1) (length specs))
          (push_member-perm (key_of spec) idx groups))
        (Permᴰ.middle idx (indices (idx + 1) (length specs)) (all_members groups)))
