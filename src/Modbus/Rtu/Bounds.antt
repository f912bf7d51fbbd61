-- ===== src/Modbus/Rtu/Bounds.antt =====
-- modbus_rtu_stream.rs: the indices and ranges that a message of a candidate's layout is read at.
use wiretap_lib_rs.Base.{
  ℕ, zero, suc, ◌+◌, ◌≤◌, ◌<◌, max, Bool, true, false, not, ◌&&◌, ◌||◌, ◌≡◌, refl, Option, none,
  some, List, [], ◌∷◌, length, take, drop, get_elem?, ltb, if◌then◌else◌, arith, Bool-cases,
  Option-cases, inl, inr,
}
use mathlib.Core.Path.{subst}
use wiretap_lib_rs.Base.Bytes.{at, u16_from_be}
use wiretap_lib_rs.Modbus.Rtu.{
  Direction, Candidate, Request, Fields, candidates, layouts, longest_first, find, req, resp,
  counted, is_response, is_exception, is_read, is_write_single, is_write_multiple, be_at, block,
  registers_be, fields_of, exception_fields, header_fields, read_response_fields,
  write_single_fields, write_request_fields, no_fields,
}

pub get_elem?-at : (xs : List ℕ) (i : ℕ) → i < length xs → get_elem? xs i ≡ some (at xs i)
get_elem?-at [] i h = absurd (omega arith)
get_elem?-at (x ∷ xs) zero h = refl
get_elem?-at (x ∷ xs) (suc i) h = get_elem?-at xs i (omega arith)

pub get_elem?-eq :
    (xs : List ℕ) (i : ℕ) {n : ℕ} → get_elem? xs i ≡ some n → (at xs i ≡ n) × (i < length xs)
get_elem?-eq [] i h = cc
get_elem?-eq (x ∷ xs) zero h = (cc, omega arith)
get_elem?-eq (x ∷ xs) (suc i) h = let rest = get_elem?-eq xs i h in (rest.0, omega (arith, rest))

pub at-take : (n : ℕ) (xs : List ℕ) (i : ℕ) → i < n → at (take n xs) i ≡ at xs i
at-take zero xs i h = absurd (omega arith)
at-take (suc n) [] i h = refl
at-take (suc n) (x ∷ xs) zero h = refl
at-take (suc n) (x ∷ xs) (suc i) h = at-take n xs i (omega arith)

be_at-at :
    (raw : List ℕ) (i : ℕ)
    → i + 1 < length raw
    → be_at raw i ≡ some (u16_from_be (at raw i) (at raw (i + 1)))
unfolding be_at
be_at-at raw i h =
    rw (get_elem?-at raw i (omega arith), get_elem?-at raw (i + 1) (omega arith)) refl

block-read :
    (raw : List ℕ) (i n : ℕ)
    → i + n ≤ length raw
    → block raw i n ≡ some (registers_be (take n (drop i raw)))
unfolding block
block-read raw i n h = ground arith

-- How far the bytes are read.
abbrev pub extent : ℕ → Direction → List ℕ → ℕ
extent function direction raw =
    let answer = is_response direction in
    if is_exception function
    then 3
    else if (is_read function && not answer) || (is_write_multiple function && answer)
    then 6
    else if is_read function
    then 3 + at raw 2
    else if is_write_single function
    then 6
    else if is_write_multiple function
    then 7 + at raw 6
    else 0

abbrev pub IsSome {ℓ} : {A : Type ℓ} → Option A → Type 0
IsSome none = ⊥
IsSome (some a) = Unit {0}

pub value_of {ℓ} : {A : Type ℓ} (o : Option A) → IsSome o → (a : A) × (o ≡ some a)
value_of none h = absurd h
value_of (some a) h = (a, refl)

-- Enough bytes give a value.
record Reads (raw : List ℕ) (o : Option Fields) (n : ℕ) : Type 0 where
  given : n ≤ length raw → IsSome o

exception_fields_given :
    (d : Direction) (raw : List ℕ) (last : Option Request)
    → Reads raw (exception_fields d raw last) 3
unfolding exception_fields
exception_fields_given d raw last = record { given = λ h. rw (get_elem?-at raw 2 (omega arith)) tt }

header_fields_given :
    (d : Direction) (raw : List ℕ) (last : Option Request) → Reads raw (header_fields d raw last) 6
unfolding header_fields
header_fields_given d raw last = record {
  given = λ h. rw (be_at-at raw 2 (omega arith), be_at-at raw 4 (omega arith)) tt;
}

read_response_fields_given :
    (raw : List ℕ) (last : Option Request)
    → Reads raw (read_response_fields raw last) (3 + at raw 2)
unfolding read_response_fields
read_response_fields_given raw last = record {
  given = λ h. rw (get_elem?-at raw 2 (omega arith)) (rw (block-read raw 3 (at raw 2) h) tt);
}

write_single_fields_given :
    (f : ℕ) (raw : List ℕ) (last : Option Request) → Reads raw (write_single_fields f raw last) 6
unfolding write_single_fields
write_single_fields_given f raw last = record {
  given = λ h. rw (be_at-at raw 2 (omega arith), be_at-at raw 4 (omega arith)) tt;
}

write_request_fields_given :
    (raw : List ℕ) (last : Option Request)
    → Reads raw (write_request_fields raw last) (7 + at raw 6)
unfolding write_request_fields
write_request_fields_given raw last = record {
  given = λ h.
      rw (be_at-at raw 2 (omega arith), be_at-at raw 4 (omega arith))
        (rw (get_elem?-at raw 6 (omega arith)) (rw (block-read raw 7 (at raw 6) h) tt));
}

by_test :
    (raw : List ℕ) (b : Bool) (x y : Option Fields) (n m : ℕ)
    → Reads raw x n
    → Reads raw y m
    → Reads raw (if b then x else y) (if b then n else m)
by_test raw true x y n m f g = f
by_test raw false x y n m f g = g

pub fields_of_given :
    (f : ℕ) (d : Direction) (raw : List ℕ) (last : Option Request)
    → extent f d raw ≤ length raw
    → IsSome (fields_of f d raw last)
unfolding fields_of no_fields
fields_of_given f d raw last h =
    let answer = is_response d in
    let other : Reads raw (no_fields d last) 0 = record { given = λ e. tt } in
    let multiple =
      by_test raw (is_write_multiple f) _ _ _ _ (write_request_fields_given raw last) other in
    let single =
      by_test raw (is_write_single f) _ _ _ _ (write_single_fields_given f raw last) multiple in
    let read = by_test raw (is_read f) _ _ _ _ (read_response_fields_given raw last) single in
    let header =
      by_test raw ((is_read f && not answer) || (is_write_multiple f && answer)) _ _ _ _
        (header_fields_given d raw last) read in
    let all = by_test raw (is_exception f) _ _ _ _ (exception_fields_given d raw last) header in
    all.given h

-- A layout is long enough for what is read out of it, and no longer than a byte count allows.
abbrev pub IsLayout : List ℕ → Candidate → Type 0
IsLayout buf c =
    (5 ≤ c.len)
    × (extent (at buf 1) c.direction buf ≤ c.len)
    × (c.len ≤ 9 + max (at buf 2) (at buf 6))

abbrev pub AllSome : (Candidate → Type 0) → List (Option Candidate) → Type 0
AllSome P [] = Unit
AllSome P (none ∷ cs) = AllSome P cs
AllSome P (some c ∷ cs) = P c × AllSome P cs

pub find_found :
    (P : Candidate → Type 0) (test : Candidate → Bool) (cs : List (Option Candidate))
    {c : Candidate}
    → AllSome P cs
    → find test cs ≡ some c
    → P c × (test c ≡ true)
unfolding find
find_found P test [] a e = absurd (cc)
find_found P test (none ∷ cs) a e = find_found P test cs a e
find_found P test (some d ∷ cs) {c} a e = elim (Bool-cases (test d)) [
  | inl t ↦
      let found : some d ≡ some c = rw t at e in
      let same : d ≡ c = cc in subst (λ k. P k × (test k ≡ true)) same (a.0, t)
  | inr t ↦ find_found P test cs a.1 (rw t at e)
]

longest_first_all :
    (P : Candidate → Type 0) (x y : Option Candidate)
    → AllSome P (x ∷ [])
    → AllSome P (y ∷ [])
    → AllSome P (longest_first x y)
longest_first_all P none none h k = tt
longest_first_all P none (some y) h k = k
longest_first_all P (some x) none h k = h
longest_first_all P (some x) (some y) h k = elim (Bool-cases (ltb x.len y.len)) [
  | inl e ↦ rw e (k.0, (h.0, tt))
  | inr e ↦ rw e (h.0, (k.0, tt))
]

counted_all :
    (P : Candidate → Type 0) (buf : List ℕ) (i : ℕ) (layout : ℕ → Option Candidate)
    → ((n : ℕ) → at buf i ≡ n → AllSome P (layout n ∷ []))
    → AllSome P (counted buf i layout ∷ [])
unfolding counted
counted_all P buf i layout h = elim (Option-cases (get_elem? buf i)) [
  | inl e ↦ rw (e, AllSome) tt
  | inr (n, e) ↦ rw (e, AllSome) (h n (get_elem?-eq buf i e).0)
]

-- The tables by what a function code is: an exception, a read, a single write, a multiple write.
abbrev layouts_by : Bool → Bool → Bool → Bool → List ℕ → Option Candidate × Option Candidate
layouts_by exception read single multiple buf =
    if exception
    then (resp 5, none)
    else if read
    then (req 8, counted buf 2 (λ n. resp (5 + n)))
    else if single
    then (req 8, none)
    else if multiple
    then (resp 8, counted buf 6 (λ n. req (9 + n)))
    else (none, none)

abbrev extent_by : Bool → Bool → Bool → Bool → Direction → List ℕ → ℕ
extent_by exception read single multiple direction raw =
    let answer = is_response direction in
    if exception
    then 3
    else if (read && not answer) || (multiple && answer)
    then 6
    else if read
    then 3 + at raw 2
    else if single
    then 6
    else if multiple
    then 7 + at raw 6
    else 0

abbrev FitsBy : Bool → Bool → Bool → Bool → List ℕ → Candidate → Type 0
FitsBy exception read single multiple buf c =
    (5 ≤ c.len)
    × (extent_by exception read single multiple c.direction buf ≤ c.len)
    × (c.len ≤ 9 + max (at buf 2) (at buf 6))

layouts_fit :
    (exception read single multiple : Bool) (buf : List ℕ)
    → (read ≡ true → multiple ≡ false)
    → let p = layouts_by exception read single multiple buf in
      AllSome (FitsBy exception read single multiple buf) (longest_first p.0 p.1)
unfolding resp req
layouts_fit true read single multiple buf h = ((omega arith, omega arith, omega arith), tt)
layouts_fit false true single true buf h = let clash = h refl in absurd (cc)
layouts_fit false true single false buf h =
    longest_first_all (FitsBy false true single false buf) (req 8) _
      ((omega arith, omega arith, omega arith), tt)
      (counted_all (FitsBy false true single false buf) buf 2 _
        (λ n e. ((omega arith, omega (arith, e), omega (arith, e)), tt)))
layouts_fit false false true false buf h = ((omega arith, omega arith, omega arith), tt)
layouts_fit false false true true buf h = ((omega arith, omega arith, omega arith), tt)
layouts_fit false false false true buf h =
    longest_first_all (FitsBy false false false true buf) (resp 8) _
      ((omega arith, omega arith, omega arith), tt)
      (counted_all (FitsBy false false false true buf) buf 6 _
        (λ n e. ((omega arith, omega (arith, e), omega (arith, e)), tt)))
layouts_fit false false false false buf h = tt

pub candidates-IsLayout : (buf : List ℕ) → AllSome (IsLayout buf) (candidates (at buf 1) buf)
unfolding candidates layouts
candidates-IsLayout buf =
    let f = at buf 1 in
    layouts_fit (is_exception f) (is_read f) (is_write_single f) (is_write_multiple f) buf
      (λ e. ground (arith, e))
