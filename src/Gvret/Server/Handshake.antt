-- ===== src/Gvret/Server/Handshake.antt =====
-- gvret.rs: `scan_for_handshake`, and where it starts.
use wiretap_lib_rs.Base.{
  ℕ, zero, suc, ◌+◌, ◌-◌, Bool, true, false, ◌||◌, ◌≡◌, refl, ap, sym, ◌∙◌, ◌⊎◌, inl, inr, List, [],
  ◌∷◌, ◌++◌, arith, length, drop, drop-nil, Bool-cases,
}
use native.Mathlib.Nat.{zero-add}
use wiretap_lib_rs.Gvret.Server.{Decoder, is_sync, scan, scan_for_handshake}

-- Does `E7 E7` stand anywhere in the bytes?
abbrev pub has_sync : List ℕ → Bool
has_sync [] = false
has_sync (a ∷ []) = false
has_sync (a ∷ (b ∷ rest)) = is_sync a b || has_sync (b ∷ rest)

pub scan_found :
    (a b : ℕ) (rest : List ℕ) (i cut : ℕ) (binary : Bool)
    → is_sync a b ≡ true
    → scan (a ∷ (b ∷ rest)) i cut binary ≡ scan rest (i + 2) (i + 2) true
unfolding scan
scan_found a b rest i cut binary e = ground (arith, e)

scan_other :
    (a b : ℕ) (rest : List ℕ) (i cut : ℕ) (binary : Bool)
    → is_sync a b ≡ false
    → scan (a ∷ (b ∷ rest)) i cut binary ≡ scan (b ∷ rest) (i + 1) cut binary
unfolding scan
scan_other a b rest i cut binary e = ground (arith, e)

-- A whole scan finds what a scan from the last byte of a part with no handshake does.
scan_overlap :
    (xs ys : List ℕ) (i cut : ℕ) (binary : Bool)
    → has_sync xs ≡ false
    → scan (xs ++ ys) i cut binary
      ≡ scan (drop (length xs - 1) (xs ++ ys)) (i + (length xs - 1)) cut binary
scan_overlap [] ys i cut binary h = ap (λ j. scan ys j cut binary) (omega arith)
scan_overlap (x ∷ []) ys i cut binary h = ap (λ j. scan (x ∷ ys) j cut binary) (omega arith)
scan_overlap (x ∷ (y ∷ xs)) ys i cut binary h =
    scan_other x y (xs ++ ys) i cut binary (ground arith)
    ∙ scan_overlap (y ∷ xs) ys (i + 1) cut binary (ground arith)
    ∙ same_place (length xs)
  where
    same_place :
        (n : ℕ)
        → scan (drop (suc n - 1) (y ∷ (xs ++ ys))) (i + 1 + (suc n - 1)) cut binary
          ≡ scan (drop (suc (suc n) - 1) (x ∷ (y ∷ (xs ++ ys)))) (i + (suc (suc n) - 1)) cut binary
    same_place n =
        let one : suc n - 1 ≡ n = omega arith in
        let two : suc (suc n) - 1 ≡ suc n = omega arith in
        let index : i + 1 + n ≡ i + suc n = omega arith in rw (one, two, index)

-- What a scan says: either there is no handshake and it changes nothing, or it latches and cuts
-- so that none is left.
pub scan_result :
    (xs : List ℕ) (i cut : ℕ) (binary : Bool)
    → ((scan xs i cut binary ≡ (cut, binary)) × (has_sync xs ≡ false))
      ⊎ ((n : ℕ) × (scan xs i cut binary ≡ (i + n, true))
          × (has_sync xs ≡ true)
          × (has_sync (drop n xs) ≡ false))
scan_result [] i cut binary = inl (unfold scan in refl, refl)
scan_result (a ∷ []) i cut binary = inl (unfold scan in refl, refl)
scan_result (a ∷ (b ∷ rest)) i cut binary = elim (Bool-cases (is_sync a b)) [
  | inl found ↦ elim (scan_result rest (i + 2) (i + 2) true) [
    | inl (e, clear) ↦
        inr (2, scan_found a b rest i cut binary found ∙ e, ground (arith, found), clear)
    | inr (n, e, more, clear) ↦ inr (
      suc (suc n),
      scan_found a b rest i cut binary found ∙ e ∙ ap (λ j. (j, true)) (omega arith),
      ground (arith, found),
      clear,
    )
  ]
  | inr other ↦ elim (scan_result (b ∷ rest) (i + 1) cut binary) [
    | inl (e, clear) ↦ inl (scan_other a b rest i cut binary other ∙ e, ground (arith, other))
    | inr (n, e, more, clear) ↦ inr (
      suc n,
      scan_other a b rest i cut binary other ∙ e ∙ ap (λ j. (j, true)) (omega arith),
      ground (arith, other),
      clear,
    )
  ]
]

pub has_sync-drop : (n : ℕ) (xs : List ℕ) → has_sync xs ≡ false → has_sync (drop n xs) ≡ false
has_sync-drop zero xs h = h
has_sync-drop (suc n) [] h = h
has_sync-drop (suc n) (x ∷ []) h = rw drop-nil refl
has_sync-drop (suc n) (x ∷ (y ∷ xs)) h = has_sync-drop n (y ∷ xs) (ground arith)

-- No handshake stands in the buffer.
abbrev pub IsSettled : Decoder → Type 0
IsSettled d = has_sync d.buf ≡ false

-- The scan of the whole buffer and the new bytes, from the first byte on.
abbrev pub scan_whole : Decoder → List ℕ → Decoder
scan_whole d chunk =
    let r = scan (d.buf ++ chunk) 0 0 d.binary in
    record { binary = r.1; buf = drop r.0 (d.buf ++ chunk) }

-- Where the old buffer holds no handshake, starting the scan at its last byte gives what a scan of
-- everything would.
pub scan_for_handshake-whole :
    (d : Decoder) (chunk : List ℕ) → IsSettled d → scan_for_handshake d chunk ≡ scan_whole d chunk
unfolding scan_for_handshake
scan_for_handshake-whole d chunk h =
    ap (λ r. record { binary = r.1; buf = drop r.0 (d.buf ++ chunk) })
      (rw zero-add at (sym (scan_overlap d.buf chunk 0 0 d.binary h)))

or_false : (b : Bool) → b ≡ (b || false)
or_false true = refl
or_false false = refl

or_true : (b : Bool) → true ≡ (b || true)
or_true true = refl
or_true false = refl

-- A scan leaves no handshake behind, and the connection is in binary mode after it exactly when it
-- was before or the bytes hold a handshake.
pub scan_for_handshake_latches :
    (d : Decoder) (chunk : List ℕ)
    → IsSettled d
    → IsSettled (scan_for_handshake d chunk)
      × ((scan_for_handshake d chunk).binary ≡ (d.binary || has_sync (d.buf ++ chunk)))
scan_for_handshake_latches d chunk h =
    rw (scan_for_handshake-whole d chunk h) (elim (scan_result (d.buf ++ chunk) 0 0 d.binary) [
      | inl (e, clear) ↦ rw (e, clear) (refl, or_false d.binary)
      | inr (n, e, found, clear) ↦ rw (e, found, zero-add) (clear, or_true d.binary)
    ])
