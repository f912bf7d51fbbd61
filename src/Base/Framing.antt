-- ===== src/Base/Framing.antt =====
-- Incremental decoders: a buffer that each read extends, and a loop that takes messages off its
-- front until it must wait. A round of that loop either stops, with what it leaves in the buffer,
-- or goes on with the rest after it has put some messages out.
use Prim.Native.Nat.{ℕ, zero, suc, ◌≤◌, ◌<◌}
use mathlib.Core.Path.{◌≡◌, refl, sym, ap, ◌∙◌}
use mathlib.Core.Logic.{◌⊎◌, inl, inr}
use mathlib.Core.Option.{Option, none, some}
use mathlib.Core.List.{List, [], ◌∷◌, ◌++◌, flatten, append-nil, append_assoc}
use native.Mathlib.Omega.{arith}
use wiretap_lib_rs.Base.Lists.{length}

pub data Round (M : Type 0) : Type 0 where
  stop : List ℕ → Round M
  go : List M → List ℕ → Round M

module _ {M : Type 0} where
  -- What a round puts out and leaves, if it goes on.
  abbrev pub progress : Round M → Option (List M × List ℕ)
  progress (stop keep) = none
  progress (go out rest) = some (out, rest)

  -- The loop over `fuel` rounds at most.
  unfoldable pub rounds : (List ℕ → Round M) → ℕ → List ℕ → List M × List ℕ
  rounds next zero buf = ([], buf)
  rounds next (suc fuel) buf = elim (next buf) [
    | stop keep ↦ ([], keep)
    | go out rest ↦ (out ++ (rounds next fuel rest).0, (rounds next fuel rest).1)
  ]

  -- A round that goes on takes a byte at least, so the length of the buffer is enough.
  unfoldable pub drain : (List ℕ → Round M) → List ℕ → List M × List ℕ
  drain next buf = rounds next (length buf) buf

  -- The messages of one decoder that is fed a list of reads.
  unfoldable pub feed_all : (List ℕ → Round M) → List ℕ → List (List ℕ) → List M
  feed_all next buf [] = []
  feed_all next buf (chunk ∷ chunks) =
      let r = drain next (buf ++ chunk) in r.0 ++ feed_all next r.1 chunks

  Round-cases :
      (r : Round M)
      → ((keep : List ℕ) × (r ≡ stop keep)) ⊎ ((out : List M) × (rest : List ℕ) × (r ≡ go out rest))
  Round-cases (stop keep) = inl (keep, refl)
  Round-cases (go out rest) = inr (out, rest, refl)

  -- What a decoder's round has to satisfy for the split of its input not to matter.
  pub record IsFraming (next : List ℕ → Round M) : Type 0 where
    pub at_end : next [] ≡ stop []
    pub shrinks :
        (buf : List ℕ) (out : List M) (rest : List ℕ)
        → next buf ≡ go out rest
        → length rest < length buf
    pub extends :
        (buf more : List ℕ) (out : List M) (rest : List ℕ)
        → next buf ≡ go out rest
        → next (buf ++ more) ≡ go out (rest ++ more)
    pub resumes :
        (buf more keep : List ℕ)
        → next buf ≡ stop keep
        → progress (next (keep ++ more)) ≡ progress (next (buf ++ more))

nothing_added {ℓ} : {A : Type ℓ} (xs ys : List A) → xs ++ ys ≡ xs → ys ≡ []
nothing_added [] ys h = h
nothing_added (x ∷ xs) ys h = nothing_added xs ys (cc h)

module _ {M : Type 0} (next : List ℕ → Round M) (framing : IsFraming next) where
  rounds_enough :
      (f g : ℕ) (buf : List ℕ)
      → length buf ≤ f
      → length buf ≤ g
      → rounds next f buf ≡ rounds next g buf
  unfolding rounds
  rounds_enough zero zero buf h k = refl
  rounds_enough zero (suc g) [] h k = rw (framing.at_end, rounds)
  rounds_enough (suc f) zero [] h k = rw (framing.at_end, rounds)
  rounds_enough zero (suc g) (b ∷ buf) h k = absurd (omega arith)
  rounds_enough (suc f) zero (b ∷ buf) h k = absurd (omega arith)
  rounds_enough (suc f) (suc g) buf h k = elim (Round-cases (next buf)) [
    | inl (keep, e) ↦ rw (e, rounds)
    | inr (out, rest, e) ↦
        rw (e, rounds)
          (again out rest (
            rounds_enough f g rest (omega (arith, framing.shrinks buf out rest e))
              (omega (arith, framing.shrinks buf out rest e))))
  ]
    where
      again :
          (out : List M) (rest : List ℕ)
          → rounds next f rest ≡ rounds next g rest
          → ◌≡◌ {A = List M × List ℕ}
              (out ++ (rounds next f rest).0, (rounds next f rest).1)
              (out ++ (rounds next g rest).0, (rounds next g rest).1)
      again out rest same = rw same

  -- The loop's own equations: `drain` stops when a round does, and else goes on with the rest.
  pub drain_stop : (buf keep : List ℕ) → next buf ≡ stop keep → drain next buf ≡ ([], keep)
  unfolding drain rounds
  drain_stop [] keep e = cc framing.at_end
  drain_stop (b ∷ buf) keep e = rw e

  pub drain_go :
      (buf rest : List ℕ) (out : List M)
      → next buf ≡ go out rest
      → drain next buf ≡ (out ++ (drain next rest).0, (drain next rest).1)
  unfolding drain rounds
  drain_go [] rest out e = cc framing.at_end
  drain_go (b ∷ buf) rest out e =
      let same =
        rounds_enough (length buf) (length rest) rest
          (omega (arith, framing.shrinks (b ∷ buf) out rest e)) (omega arith) in
      rw (e, same)

  -- What is put out depends on what rounds put out, and not on what a stop keeps.
  pub outputs_by_progress :
      (a b : List ℕ) → progress (next a) ≡ progress (next b) → (drain next a).0 ≡ (drain next b).0
  outputs_by_progress a b same = elim (Round-cases (next a)) [
    | inl (keep, e) ↦ elim (Round-cases (next b)) [
      | inl (keep', e') ↦ rw (drain_stop a keep e, drain_stop b keep' e')
      | inr (out', rest', e') ↦ cc (ap progress e, ap progress e')
    ]
    | inr (out, rest, e) ↦ elim (Round-cases (next b)) [
      | inl (keep', e') ↦ cc (ap progress e, ap progress e')
      | inr (out', rest', e') ↦
          rw (drain_go a rest out e, drain_go b rest' out' e') (cc (ap progress e, ap progress e'))
    ]
  ]

  -- Draining a read and then what follows it puts out what draining both at once does.
  pub drain_split :
      (bound : ℕ) (a more : List ℕ)
      → length a ≤ bound
      → (drain next a).0 ++ (drain next ((drain next a).1 ++ more)).0 ≡ (drain next (a ++ more)).0
  drain_split zero [] more h = rw (drain_stop [] [] framing.at_end)
  drain_split zero (x ∷ a) more h = absurd (omega arith)
  drain_split (suc n) a more h = elim (Round-cases (next a)) [
    | inl (keep, e) ↦
        rw (drain_stop a keep e)
          (outputs_by_progress (keep ++ more) (a ++ more) (framing.resumes a more keep e))
    | inr (out, rest, e) ↦
        rw
          (
            drain_go a rest out e,
            drain_go (a ++ more) (rest ++ more) out (framing.extends a more out rest e),
          )
          (rw append_assoc (
            ap (λ tail. out ++ tail)
              (drain_split n rest more (omega (arith, framing.shrinks a out rest e)))))
  ]

  drain_settles : (a : List ℕ) → (drain next (drain next a).1).0 ≡ []
  drain_settles a =
      let whole = drain_split (length a) a [] (omega arith) in
      nothing_added _ _ (simp append-nil at whole)

  -- A decoder with nothing ready in its buffer puts out, over any list of reads, what one read of
  -- them all would.
  pub feed_all-drain :
      (buf : List ℕ) (chunks : List (List ℕ))
      → (drain next buf).0 ≡ []
      → feed_all next buf chunks ≡ (drain next (buf ++ flatten chunks)).0
  unfolding feed_all flatten
  feed_all-drain buf [] settled = rw append-nil (sym settled)
  feed_all-drain buf (chunk ∷ chunks) settled =
      rw (feed_all-drain (drain next (buf ++ chunk)).1 chunks (drain_settles (buf ++ chunk))) (
        drain_split (length (buf ++ chunk)) (buf ++ chunk) (flatten chunks) (omega arith)
        ∙ ap (λ all. (drain next all).0) (append_assoc buf chunk (flatten chunks)))

  -- What every round keeps of the buffer, the loop keeps.
  pub drain_keeps :
      (P : List ℕ → Type 0)
      → ((buf keep : List ℕ) → next buf ≡ stop keep → P buf → P keep)
      → ((buf rest : List ℕ) (out : List M) → next buf ≡ go out rest → P buf → P rest)
      → (bound : ℕ) (buf : List ℕ) → length buf ≤ bound
      → P buf
      → P (drain next buf).1
  drain_keeps P on_stop on_go zero [] h p = rw (drain_stop [] [] framing.at_end) p
  drain_keeps P on_stop on_go zero (x ∷ buf) h p = absurd (omega arith)
  drain_keeps P on_stop on_go (suc n) buf h p = elim (Round-cases (next buf)) [
    | inl (keep, e) ↦ rw (drain_stop buf keep e) (on_stop buf keep e p)
    | inr (out, rest, e) ↦ rw (drain_go buf rest out e) (
        drain_keeps P on_stop on_go n rest (omega (arith, framing.shrinks buf out rest e))
          (on_go buf rest out e p))
  ]
