-- ===== src/Modbus/Rtu/Residue.antt =====
-- modbus_rtu_stream.rs: the bytes that are kept between reads and left at the end of a stream.
use wiretap_lib_rs.Base.{
  ℕ, zero, suc, ◌+◌, ◌<◌, max, Bool, true, false, not, ◌&&◌, ◌≡◌, ap, ◌∙◌, ◌⊎◌, none, some, List,
  [], ◌∷◌, ◌++◌, length, ltb, arith, Bool-cases, Option-cases, inl, inr,
}
use mathlib.Core.Path.{subst}
use wiretap_lib_rs.Base.Bytes.{at, IsByte, IsBytes}
use wiretap_lib_rs.Modbus.Rtu.{
  CrcPolicy, strict, lenient, ModbusRtuMessage, candidates, find, is_plausible,
}
use wiretap_lib_rs.Modbus.Rtu.Bounds.{IsLayout, find_found, candidates-IsLayout, get_elem?-at}
use wiretap_lib_rs.Modbus.Rtu.Drained.{Drains, stops, drops, yields, Stops}
use wiretap_lib_rs.Modbus.Rtu.Messages.{
  InOrder, done, keep, skip, raws, Drains-InOrder, Pushed, unchanged, drained, push_bytes-Pushed,
}
use wiretap_lib_rs.Modbus.Rtu.Stream.{
  ModbusRtuStream, consume, nothing, wait, choose, unvalidated, guess, waits, fits_valid, evict,
  push_bytes, skip_to_address,
}

-- A wait is for a candidate that is longer than the buffer.
waits_lem :
    (at_end : Bool) (buf : List ℕ)
    → waits (at buf 1) at_end buf ≡ true
    → (at_end ≡ false) × (length buf < 9 + max (at buf 2) (at buf 6))
unfolding waits
waits_lem at_end buf e =
    elim (Option-cases (find (is_plausible (at buf 1) buf) (candidates (at buf 1) buf))) [
      | inl n ↦
          let none_found : (not at_end && false) ≡ true = rw n at e in
          absurd (ground (arith, none_found))
      | inr (c, f) ↦
          let found =
            find_found (IsLayout buf) (is_plausible (at buf 1) buf) (candidates (at buf 1) buf)
              (candidates-IsLayout buf) f in
          let tested : (not at_end && ltb (length buf) c.len) ≡ true = rw f at e in
          (ground (arith, tested), ground (arith, tested, found.0))
    ]

guess-ne-wait : (policy : CrcPolicy) (buf : List ℕ) → guess (at buf 1) policy buf ≡ wait → ⊥
unfolding guess
guess-ne-wait strict buf e = cc
guess-ne-wait lenient buf e = ground (arith, e)

unvalidated_wait :
    (policy : CrcPolicy) (at_end : Bool) (buf : List ℕ)
    → unvalidated (at buf 1) policy at_end buf ≡ wait
    → waits (at buf 1) at_end buf ≡ true
unfolding unvalidated
unvalidated_wait policy at_end buf e = elim (Bool-cases (waits (at buf 1) at_end buf)) [
  | inl w ↦ w
  | inr w ↦
      let guessed : guess (at buf 1) policy buf ≡ wait = rw (w, unvalidated) at e in
      absurd (guess-ne-wait policy buf guessed)
]

-- What a loop that has stopped leaves: too few bytes, or a wait for more than it holds.
choose_wait :
    (policy : CrcPolicy) (at_end : Bool) (buf : List ℕ)
    → choose policy at_end buf ≡ wait
    → (length buf < 4) ⊎ (waits (at buf 1) at_end buf ≡ true)
unfolding choose
choose_wait policy at_end buf e = elim (Bool-cases (ltb (length buf) 4)) [
  | inl few ↦ inl (ground (arith, few))
  | inr enough ↦
      let func = get_elem?-at buf 1 (ground (arith, enough)) in
      elim (Option-cases (find (fits_valid buf) (candidates (at buf 1) buf))) [
        | inl f ↦
            let unmet : unvalidated (at buf 1) policy at_end buf ≡ wait =
              rw (enough, func, f, choose) at e in
            inr (unvalidated_wait policy at_end buf unmet)
        | inr (c, f) ↦
            let clash : consume c true ≡ wait = rw (enough, func, f, choose) at e in absurd (cc)
      ]
]

-- What is no message: too few bytes, or no layout whose CRC agrees, and none that the policy guesses.
abbrev pub IsResidue : CrcPolicy → List ℕ → Type 0
IsResidue policy rest =
    (length rest < 4)
    ⊎ ((find (fits_valid rest) (candidates (at rest 1) rest) ≡ none)
        × (guess (at rest 1) policy rest ≡ nothing))

choose_nothing :
    (policy : CrcPolicy) (buf : List ℕ) → choose policy true buf ≡ nothing → IsResidue policy buf
unfolding choose unvalidated waits
choose_nothing policy buf e = elim (Bool-cases (ltb (length buf) 4)) [
  | inl few ↦ inl (ground (arith, few))
  | inr enough ↦
      let func = get_elem?-at buf 1 (ground (arith, enough)) in
      elim (Option-cases (find (fits_valid buf) (candidates (at buf 1) buf))) [
        | inl f ↦
            let guessed : guess (at buf 1) policy buf ≡ nothing =
              rw (enough, func, f, choose) at e in
            inr (f, guessed)
        | inr (c, f) ↦
            let clash : consume c true ≡ nothing = rw (enough, func, f, choose) at e in absurd (cc)
      ]
]

Stops-IsResidue : (t : ModbusRtuStream) → Stops true t → IsResidue t.policy t.buf
Stops-IsResidue t (inl w) = elim (choose_wait t.policy true t.buf w) [
  | inl few ↦ inl few
  | inr more ↦ let waiting = waits_lem true t.buf more in absurd (cc (waiting.0))
]
Stops-IsResidue t (inr (e, n)) = choose_nothing t.policy t.buf n

Drains-Stops :
    {at_end : Bool} {s t : ModbusRtuStream} {out : List ModbusRtuMessage}
    → Drains at_end s out t
    → Stops at_end t
Drains-Stops (stops e h) = h
Drains-Stops (drops ending d) = Drains-Stops d
Drains-Stops (yields c crc h b d) = Drains-Stops d

Drains-policy :
    {at_end : Bool} {s t : ModbusRtuStream} {out : List ModbusRtuMessage}
    → Drains at_end s out t
    → t.policy ≡ s.policy
unfolding skip_to_address
Drains-policy (stops e h) = ap (λ u. u.policy) e
Drains-policy (drops ending d) = Drains-policy d
Drains-policy (yields c crc h b d) = Drains-policy d ∙ b.policy_kept

pub Drains-IsResidue :
    {s u : ModbusRtuStream} {out : List ModbusRtuMessage}
    → Drains true s out u
    → IsResidue s.policy u.buf
Drains-IsResidue {u = u} d =
    subst (λ p. IsResidue p u.buf) (Drains-policy d) (Stops-IsResidue u (Drains-Stops d))

InOrder-IsBytes : {xs ys : List ℕ} → InOrder xs ys → IsBytes ys → IsBytes xs
InOrder-IsBytes done a = tt
InOrder-IsBytes (keep h) a = (a.0, InOrder-IsBytes h a.1)
InOrder-IsBytes (skip h) a = InOrder-IsBytes h a.1

IsBytes-append : (xs ys : List ℕ) → IsBytes xs → IsBytes ys → IsBytes (xs ++ ys)
IsBytes-append [] ys a b = b
IsBytes-append (x ∷ xs) ys a b = (a.0, IsBytes-append xs ys a.1 b)

IsBytes-behind : (xs ys : List ℕ) → IsBytes (xs ++ ys) → IsBytes ys
IsBytes-behind [] ys a = a
IsBytes-behind (x ∷ xs) ys a = IsBytes-behind xs ys a.1

at-IsByte : (xs : List ℕ) (i : ℕ) → IsBytes xs → IsByte (at xs i)
at-IsByte [] i a = omega arith
at-IsByte (x ∷ xs) zero a = a.0
at-IsByte (x ∷ xs) (suc i) a = at-IsByte xs i a.1

Stops-lt : (t : ModbusRtuStream) → IsBytes t.buf → Stops false t → length t.buf < 264
Stops-lt t a (inl w) = elim (choose_wait t.policy false t.buf w) [
  | inl few ↦ omega (arith, few)
  | inr more ↦ omega (arith, waits_lem false t.buf more, at-IsByte t.buf 2 a, at-IsByte t.buf 6 a)
]
Stops-lt t a (inr (e, n)) = absurd (cc)

evict_short : (u : ModbusRtuStream) → length u.buf < 264 → evict u ≡ u
unfolding evict
evict_short u h = ground (arith, h)

-- Between reads of bytes the stream keeps fewer than 264 of them.
pub push_bytes-bounded :
    (s t : ModbusRtuStream) (bytes : List ℕ) (out : List ModbusRtuMessage)
    → IsBytes s.buf
    → length s.buf < 264
    → IsBytes bytes
    → push_bytes s bytes ≡ some (out, t)
    → IsBytes t.buf × (length t.buf < 264)
push_bytes-bounded s t bytes out a few b e = kept out (push_bytes-Pushed s bytes out t e)
  where
    kept : (ms : List ModbusRtuMessage) → Pushed s bytes ms t → IsBytes t.buf × (length t.buf < 264)
    kept ms (unchanged p) = rw (ap (λ (x : ModbusRtuStream). x.buf) p) (a, few)
    kept ms (drained u d p) =
        let order = Drains-InOrder (record s { buf = s.buf ++ bytes }) d in
        let held : IsBytes u.buf =
          IsBytes-behind (raws ms) u.buf (InOrder-IsBytes order (IsBytes-append s.buf bytes a b)) in
        let short : length u.buf < 264 = Stops-lt u held (Drains-Stops d) in
        rw (ap (λ (x : ModbusRtuStream). x.buf) (p ∙ evict_short u short)) (held, short)
