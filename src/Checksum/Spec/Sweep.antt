-- ===== src/Checksum/Spec/Sweep.antt =====
-- spec.rs: the sweep beside one that takes each spec by itself.
use mathlib.Core.List.Permᴰ
use mathlib.Core.List.{Permᴰ}
use mathlib.Core.Path.{subst}
use wiretap_lib_rs.Base.{
  ℕ, ◌+◌, ◌≡◌, refl, sym, ap, ◌∙◌, ◌⊎◌, Option, none, some, List, [], ◌∷◌, ◌++◌, map, length,
  get_elem?, ltb, arith, All, Bool-cases, inl, inr, append_assoc, append-nil, length-append,
}
use wiretap_lib_rs.Checksum.Spec.{
  ChecksumSpec, ChecksumSpecResult, Key, Groups, group, calculated, tally, result_of, sweep_members,
  sweep_groups, sort_by_key, sweep_specs,
}
use wiretap_lib_rs.Checksum.Spec.Measure.{measured, each, tally-measured}
use wiretap_lib_rs.Checksum.Spec.Sorting.{
  flat, indices, IsEntry, sort_by_key-flat-perm, sort_by_key-flat-indices,
}
use wiretap_lib_rs.Checksum.Spec.Grouping.{
  all_members, IsMember, AreGroups, group-AreGroups, group-perm, get_elem?-middle,
}

-- The result of the spec at an index.
abbrev entry_of : List (List ℕ) → ℕ → Option ChecksumSpec → List ChecksumSpecResult
entry_of frames idx none = []
entry_of frames idx (some spec) = result_of idx (measured spec frames)

abbrev entry : List (List ℕ) → List ChecksumSpec → ℕ → List ChecksumSpecResult
entry frames specs idx = entry_of frames idx (get_elem? specs idx)

result_of_cases :
    (idx : ℕ) (counts : ℕ × ℕ)
    → (result_of idx counts ≡ [])
      ⊎ ((r : ChecksumSpecResult) × (result_of idx counts ≡ r ∷ []) × (r.spec_index ≡ idx))
unfolding result_of
result_of_cases idx counts = elim (Bool-cases (ltb 0 counts.1)) [
  | inl e ↦
      inr (
        record { spec_index = idx; match_count = counts.0; total_count = counts.1 },
        rw e refl,
        refl,
      )
  | inr e ↦ inl (rw e refl)
]

entry-IsEntry : (frames : List (List ℕ)) (specs : List ChecksumSpec) → IsEntry (entry frames specs)
entry-IsEntry frames specs i = by_spec (get_elem? specs i)
  where
    by_spec :
        (o : Option ChecksumSpec)
        → (entry_of frames i o ≡ [])
          ⊎ ((r : ChecksumSpecResult) × (entry_of frames i o ≡ r ∷ []) × (r.spec_index ≡ i))
    by_spec none = inl refl
    by_spec (some spec) = result_of_cases i (measured spec frames)

-- The members of a group are swept as if each were by itself.
sweep_members-flat :
    (frames : List (List ℕ)) (specs : List ChecksumSpec) (key : Key) (members : List ℕ)
    → All (IsMember specs key) members
    → sweep_members frames specs (map (calculated key) frames) members
      ≡ flat (entry frames specs) members
unfolding sweep_members
sweep_members-flat frames specs key [] a = refl
sweep_members-flat frames specs key (idx ∷ members) a =
    let (spec, found, same) = a.0 in
    let counts : tally spec frames (map (calculated key) frames) ≡ measured spec frames =
      subst (λ k. tally spec frames (map (calculated k) frames) ≡ measured spec frames) same
        (tally-measured spec frames) in
    let later = sweep_members-flat frames specs key members a.1 in
    rw (found) (rw (counts, later) refl)

flat-append :
    (e : ℕ → List ChecksumSpecResult) (is js : List ℕ) → flat e (is ++ js) ≡ flat e is ++ flat e js
flat-append e [] js = refl
flat-append e (i ∷ is) js =
    ap (λ xs. e i ++ xs) (flat-append e is js) ∙ sym (append_assoc (e i) (flat e is) (flat e js))

sweep_groups-flat :
    (frames : List (List ℕ)) (specs : List ChecksumSpec) (groups : Groups)
    → AreGroups specs groups
    → sweep_groups frames specs groups ≡ flat (entry frames specs) (all_members groups)
unfolding sweep_groups
sweep_groups-flat frames specs [] a = refl
sweep_groups-flat frames specs ((key, members) ∷ groups) a =
    rw (sweep_members-flat frames specs key members a.0, sweep_groups-flat frames specs groups a.1)
      (sym (flat-append (entry frames specs) members (all_members groups)))

-- Going through the groups in another order.
AreGroups-perm :
    (specs : List ChecksumSpec) {gs hs : Groups}
    → Permᴰ gs hs
    → AreGroups specs hs
    → AreGroups specs gs
AreGroups-perm specs Permᴰ.nil a = a
AreGroups-perm specs (Permᴰ.cons p d) a =
    (subst (λ g. All (IsMember specs g.0) g.1) (sym p) a.0, AreGroups-perm specs d a.1)
AreGroups-perm specs (Permᴰ.swap p q) a = (
  subst (λ g. All (IsMember specs g.0) g.1) (sym p) a.1.0,
  (subst (λ g. All (IsMember specs g.0) g.1) (sym q) a.0, a.1.1),
)
AreGroups-perm specs (Permᴰ.trans d k) a = AreGroups-perm specs d (AreGroups-perm specs k a)

exchange : (xs ys zs : List ℕ) → Permᴰ (xs ++ (ys ++ zs)) (ys ++ (xs ++ zs))
exchange [] ys zs = Permᴰ.refl (ys ++ zs)
exchange (x ∷ xs) ys zs =
    Permᴰ.trans (Permᴰ.cons refl (exchange xs ys zs)) (Permᴰ.symm (Permᴰ.middle x ys (xs ++ zs)))

all_members-perm : {gs hs : Groups} → Permᴰ gs hs → Permᴰ (all_members gs) (all_members hs)
all_members-perm Permᴰ.nil = Permᴰ.nil
all_members-perm (Permᴰ.cons {a = a} {l₁ = is} {l₂ = js} p d) =
    subst (λ g. Permᴰ (a.1 ++ all_members is) (g.1 ++ all_members js)) p
      (Permᴰ.append_left a.1 (all_members-perm d))
all_members-perm (Permᴰ.swap {a = a} {b = b} {b' = b'} {l = is} p q) =
    subst (λ g. Permᴰ (a.1 ++ (b.1 ++ all_members is)) (g.1 ++ (b'.1 ++ all_members is))) q
      (subst (λ g. Permᴰ (a.1 ++ (b.1 ++ all_members is)) (b.1 ++ (g.1 ++ all_members is))) p
        (exchange a.1 b.1 (all_members is)))
all_members-perm (Permᴰ.trans d k) = Permᴰ.trans (all_members-perm d) (all_members-perm k)

-- Each spec by itself, as entries.
flat-each :
    (frames : List (List ℕ)) (specs front rest : List ChecksumSpec) (idx : ℕ)
    → front ++ rest ≡ specs
    → length front ≡ idx
    → flat (entry frames specs) (indices idx (length rest)) ≡ each frames idx rest
flat-each frames specs front [] idx w e = refl
flat-each frames specs front (spec ∷ rest) idx w e =
    let found : get_elem? specs idx ≡ some spec =
      subst (λ xs. get_elem? xs idx ≡ some spec) w
        (subst (λ i. get_elem? (front ++ (spec ∷ rest)) i ≡ some spec) e
          (get_elem?-middle front spec rest)) in
    let later =
      flat-each frames specs (front ++ (spec ∷ [])) rest (idx + 1)
        (append_assoc front (spec ∷ []) rest ∙ w)
        (omega (arith, e, length-append front (spec ∷ []))) in
    rw (found) (ap (λ xs. result_of idx (measured spec frames) ++ xs) later)

-- In whatever order the groups are gone through, the sweep gives for each spec, in the order of the
-- specs, what the spec gives by itself: of the frames with a calculated range, how many there are and
-- how many validate, and nothing where there are none.
pub sweep_specs-each :
    (iterate : Groups → Groups) (frames : List (List ℕ)) (specs : List ChecksumSpec)
    → ((groups : Groups) → Permᴰ (iterate groups) groups)
    → sweep_specs iterate frames specs ≡ each frames 0 specs
unfolding sweep_specs
sweep_specs-each iterate frames specs order =
    let groups = group [] 0 specs in
    let members = group-AreGroups specs [] specs [] 0 refl refl tt in
    let arranged = AreGroups-perm specs (order groups) members in
    let shuffled = Permᴰ.trans (all_members-perm (order groups)) (group-perm [] 0 specs) in
    ap sort_by_key (sweep_groups-flat frames specs (iterate groups) arranged)
    ∙ sort_by_key-flat-perm (entry frames specs) (entry-IsEntry frames specs) shuffled
    ∙ ap (λ is. sort_by_key (flat (entry frames specs) is)) (append-nil (indices 0 (length specs)))
    ∙ sort_by_key-flat-indices (entry frames specs) 0 (length specs) (entry-IsEntry frames specs)
    ∙ flat-each frames specs [] specs 0 refl refl
