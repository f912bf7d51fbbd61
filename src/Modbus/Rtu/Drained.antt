-- ===== src/Modbus/Rtu/Drained.antt =====
-- modbus_rtu_stream.rs: the loop of `drain_messages` as a relation, and what it leaves.
use wiretap_lib_rs.Base.{
  ℕ, zero, suc, ◌≤◌, ◌<◌, Bool, true, false, not, ◌≡◌, refl, sym, ap, ◌⊎◌, Option, some, List, [],
  ◌∷◌, length, take, drop, of_bool, ltb, arith, Bool-cases, inl, inr, length-drop, Option-cases,
}
use wiretap_lib_rs.Modbus.Rtu.{
  Candidate, ModbusRtuMessage, CrcPolicy, strict, lenient, candidates, find,
}
use wiretap_lib_rs.Base.Bytes.{at}
use mathlib.Core.Path.{subst}
use wiretap_lib_rs.Modbus.Rtu.Choices.{
  Chosen, choose_cases, choose-Chosen, Built, build_total, extent-take,
}
use wiretap_lib_rs.Modbus.Rtu.Stream.{
  ModbusRtuStream, message, no_message, need_more, Choice, consume, nothing, wait, choose, waits,
  guess, unvalidated, fits_plausible, take_candidate, take_message, perform, from_address,
  skip_to_address, Drain, put_out, round, drain_loop, is_empty,
}

-- The stream behind a message, and behind a byte that starts none.
abbrev pub settled : ModbusRtuStream → ModbusRtuStream
settled t = record t { pending_frames = of_bool (not (is_empty t.buf)) }

abbrev pub dropped : ModbusRtuStream → ModbusRtuStream
dropped s = record s { buf = drop 1 s.buf }

abbrev pub behind : ModbusRtuStream → Candidate → ModbusRtuStream
behind s c = record s { buf = drop c.len s.buf }

-- The loop ends where it must wait, or at the end of the stream where nothing starts.
abbrev pub Stops : Bool → ModbusRtuStream → Type 0
Stops at_end s =
    (choose s.policy at_end s.buf ≡ wait)
    ⊎ ((at_end ≡ true) × (choose s.policy at_end s.buf ≡ nothing))

pub data Drains (at_end : Bool)
    : ModbusRtuStream → List ModbusRtuMessage → ModbusRtuStream → Type 0 where
  stops : {s t : ModbusRtuStream} → t ≡ skip_to_address s → Stops at_end t → Drains at_end s [] t
  drops :
      {s t : ModbusRtuStream} {out : List ModbusRtuMessage}
      → at_end ≡ false
      → Drains at_end (dropped (skip_to_address s)) out t
      → Drains at_end s out t
  yields :
      {s t u : ModbusRtuStream} {m : ModbusRtuMessage} {out : List ModbusRtuMessage} (c : Candidate)
      (crc : Bool)
      → Chosen s.policy (skip_to_address s).buf c crc
      → Built (behind (skip_to_address s) c) (take c.len (skip_to_address s).buf) crc m u
      → Drains at_end (settled u) out t
      → Drains at_end s (m ∷ out) t

-- A choice that is no panic.
abbrev IsSafe : Choice → Type 0
IsSafe ch = ((c : Candidate) × (crc : Bool) × (ch ≡ consume c crc)) ⊎ ((ch ≡ nothing) ⊎ (ch ≡ wait))

guess-IsSafe : (func : ℕ) (policy : CrcPolicy) (buf : List ℕ) → IsSafe (guess func policy buf)
unfolding guess
guess-IsSafe func strict buf = inr (inl refl)
guess-IsSafe func lenient buf =
    elim (Option-cases (find (fits_plausible func buf) (candidates func buf))) [
      | inl e ↦ rw (e, guess) (inr (inl refl))
      | inr (c, e) ↦ rw (e, guess) (inl (c, false, refl))
    ]

unvalidated-IsSafe :
    (func : ℕ) (policy : CrcPolicy) (at_end : Bool) (buf : List ℕ)
    → IsSafe (unvalidated func policy at_end buf)
unfolding unvalidated
unvalidated-IsSafe func policy at_end buf = elim (Bool-cases (waits func at_end buf)) [
  | inl w ↦ rw w (inr (inr refl))
  | inr w ↦ rw w (guess-IsSafe func policy buf)
]

choose-IsSafe :
    (policy : CrcPolicy) (at_end : Bool) (buf : List ℕ) → IsSafe (choose policy at_end buf)
choose-IsSafe policy at_end buf = elim (choose_cases policy at_end buf) [
  | inl e ↦ inr (inr e)
  | inr (inl (c, f, e)) ↦ inl (c, true, e)
  | inr (inr (f, e)) ↦ subst IsSafe (sym e) (unvalidated-IsSafe (at buf 1) policy at_end buf)
]

pub length-from_address : (a : Option ℕ) (buf : List ℕ) → length (from_address a buf) ≤ length buf
unfolding from_address
length-from_address a [] = omega arith
length-from_address a (b ∷ bs) = ground (arith, length-from_address a bs)

choose_nothing_long :
    (policy : CrcPolicy) (at_end : Bool) (buf : List ℕ)
    → choose policy at_end buf ≡ nothing
    → 4 ≤ length buf
unfolding choose
choose_nothing_long policy at_end buf e = elim (Bool-cases (ltb (length buf) 4)) [
  | inl few ↦ let clash : wait ≡ nothing = rw (few, choose) at e in absurd (cc)
  | inr enough ↦ ground (arith, enough)
]

-- What the loop gives, with the derivation.
abbrev pub Ran : Drain → Bool → ModbusRtuStream → Type 0
Ran r at_end s =
    (out : List ModbusRtuMessage) × (t : ModbusRtuStream) × (r ≡ some (out, t))
    × Drains at_end s out t

take_candidate_total :
    (s : ModbusRtuStream) (c : Candidate) (crc : Bool)
    → Chosen s.policy s.buf c crc
    → (m : ModbusRtuMessage) × (u : ModbusRtuStream) × (take_candidate s c crc
        ≡ some (message m, u))
      × Built (behind s c) (take c.len s.buf) crc m u
unfolding take_candidate
take_candidate_total s c crc h =
    let room = extent-take s.buf c h.layout h.fits in
    let built = build_total (behind s c) (take c.len s.buf) c.direction crc room.0 room.1 in
    let within : ltb (length s.buf) c.len ≡ false = ground (arith, h.fits) in
    (built.0, built.1, rw (within) (rw (built.2) refl), built.3)

round_message :
    (again : ModbusRtuStream → Drain) (at_end : Bool) (s u : ModbusRtuStream) (m : ModbusRtuMessage)
    (c : Candidate) (crc : Bool)
    → Chosen s.policy (skip_to_address s).buf c crc
    → Built (behind (skip_to_address s) c) (take c.len (skip_to_address s).buf) crc m u
    → Ran (again (settled u)) at_end (settled u)
    → Ran (round again at_end (some (message m, u))) at_end s
unfolding round
round_message again at_end s u m c crc h b (out, t, e, d) =
    (m ∷ out, t, ap (put_out m) e, yields c crc h b d)

round_nothing :
    (again : ModbusRtuStream → Drain) (at_end : Bool) (s : ModbusRtuStream)
    → choose s.policy at_end (skip_to_address s).buf ≡ nothing
    → (at_end ≡ false
        → Ran (again (dropped (skip_to_address s))) at_end (dropped (skip_to_address s)))
    → Ran (round again at_end (some (no_message, skip_to_address s))) at_end s
unfolding round skip_to_address
round_nothing again true s e h = ([], skip_to_address s, refl, stops refl (inr (refl, e)))
round_nothing again false s e h = let rest = h refl in (rest.0, rest.1, rest.2, drops refl rest.3)

round_wait :
    (again : ModbusRtuStream → Drain) (at_end : Bool) (s : ModbusRtuStream)
    → choose s.policy at_end (skip_to_address s).buf ≡ wait
    → Ran (round again at_end (some (need_more, skip_to_address s))) at_end s
unfolding round skip_to_address
round_wait again at_end s e = ([], skip_to_address s, refl, stops refl (inl e))

pub drain_loop-Ran :
    (fuel : ℕ) (at_end : Bool) (s : ModbusRtuStream)
    → length s.buf < fuel
    → Ran (drain_loop fuel at_end s) at_end s
unfolding drain_loop take_message perform skip_to_address
drain_loop-Ran zero at_end s h = absurd (omega arith)
drain_loop-Ran (suc fuel) at_end s h =
    let buf = from_address s.device_address s.buf in
    let short = length-from_address s.device_address s.buf in
    elim (choose-IsSafe s.policy at_end buf) [
      | inl (c, crc, e) ↦
          let chosen = choose-Chosen s.policy at_end buf c crc e in
          let taken = take_candidate_total (skip_to_address s) c crc chosen in
          let left = length-drop c.len buf in
          let kept = ap length (taken.3.buf_kept) in
          rw (e) (
            rw (taken.2) (
              round_message (drain_loop fuel at_end) at_end s taken.1 taken.0 c crc chosen taken.3 (
                drain_loop-Ran fuel at_end (settled taken.1)
                  (omega (arith, h, short, left, kept, chosen.layout, chosen.fits)))))
      | inr (inl e) ↦ rw (e) (
          round_nothing (drain_loop fuel at_end) at_end s e (λ f.
            drain_loop-Ran fuel at_end (dropped (skip_to_address s)) (
              omega
                (arith, h, short, length-drop 1 buf, choose_nothing_long s.policy at_end buf e))))
      | inr (inr e) ↦ rw (e) (round_wait (drain_loop fuel at_end) at_end s e)
    ]
