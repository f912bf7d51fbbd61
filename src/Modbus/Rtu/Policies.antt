-- ===== src/Modbus/Rtu/Policies.antt =====
-- modbus_rtu_stream.rs: the two CRC policies on one stream.
use wiretap_lib_rs.Base.{
  ℕ, zero, suc, Bool, true, false, ◌≡◌, refl, sym, ap, ◌∙◌, ◌⊎◌, ◌≢◌, Option, none, some, List, [],
  ◌∷◌, ◌++◌, length, take, get_elem?, ltb, Bool-cases, Option-cases, inl, inr, All, ◌>>=◌, arith,
}
use mathlib.Core.Path.{subst}
use wiretap_lib_rs.Base.Bytes.{at}
use wiretap_lib_rs.Modbus.Rtu.Bounds.{get_elem?-at}
use wiretap_lib_rs.Modbus.Rtu.{
  Direction, CrcPolicy, strict, lenient, ModbusRtuMessage, Candidate, candidates, find, fields_of,
}
use wiretap_lib_rs.Modbus.Rtu.Drained.{settled, dropped, behind}
use wiretap_lib_rs.Modbus.Rtu.Messages.{some_pair}
use wiretap_lib_rs.Modbus.Rtu.Stream.{
  ModbusRtuStream, Step, message, Choice, consume, nothing, wait, panics, choose, unvalidated,
  guess, waits, fits_valid, fits_plausible, build, take_candidate, take_message, perform,
  skip_to_address, Drain, put_out, round, drain_loop, drain_messages, push_bytes, evict, max_buffer,
}

-- The stream under the strict policy.
abbrev pub strictly : ModbusRtuStream → ModbusRtuStream
strictly s = record s { policy = strict }

abbrev pub IsValid : ModbusRtuMessage → Type 0
IsValid m = m.crc_valid ≡ true

abbrev Building : Type 0
Building = Option (ModbusRtuMessage × ModbusRtuStream)

abbrev built_strictly : Building → Building
built_strictly none = none
built_strictly (some (m, u)) = some (m, strictly u)

-- A message is built with the flag that it is given, and leaves the policy.
abbrev Flagged : Bool → CrcPolicy → Building → Type 0
Flagged crc policy none = Unit
Flagged crc policy (some (m, u)) = (m.crc_valid ≡ crc) × (u.policy ≡ policy)

build-strictly :
    (s : ModbusRtuStream) (raw : List ℕ) (d : Direction) (crc : Bool)
    → (build (strictly s) raw d crc ≡ built_strictly (build s raw d crc))
      × Flagged crc s.policy (build s raw d crc)
unfolding build
build-strictly s raw d crc = elim (Option-cases (get_elem? raw 0)) [
  | inl n ↦ rw (n, built_strictly) (refl, tt)
  | inr (a, p) ↦ elim (Option-cases (get_elem? raw 1)) [
    | inl n ↦ rw (p) (rw (n) (refl, tt))
    | inr (f, q) ↦ elim (Option-cases (fields_of f d raw s.last_request)) [
      | inl n ↦ rw (p) (rw (q) (rw (n) (refl, tt)))
      | inr (fs, r) ↦ rw (p) (rw (q) (rw (r) (refl, (refl, refl))))
    ]
  ]
]

guess_agree :
    (buf : List ℕ)
    → (guess (at buf 1) strict buf ≡ guess (at buf 1) lenient buf)
      ⊎ ((c : Candidate) × (guess (at buf 1) lenient buf ≡ consume c false))
unfolding guess
guess_agree buf =
    elim (Option-cases (find (fits_plausible (at buf 1) buf) (candidates (at buf 1) buf))) [
      | inl g ↦ inl (rw (g, guess) refl)
      | inr (c, g) ↦ inr (c, rw (g, guess) refl)
    ]

choose_agree :
    (at_end : Bool) (buf : List ℕ)
    → (choose strict at_end buf ≡ choose lenient at_end buf)
      ⊎ ((c : Candidate) × (choose lenient at_end buf ≡ consume c false))
unfolding choose unvalidated
choose_agree at_end buf = elim (Bool-cases (ltb (length buf) 4)) [
  | inl few ↦ inl (rw few refl)
  | inr enough ↦
      let func = get_elem?-at buf 1 (ground (arith, enough)) in
      elim (Option-cases (find (fits_valid buf) (candidates (at buf 1) buf))) [
        | inr (c, v) ↦ inl (rw (enough, func) (rw (v) refl))
        | inl v ↦ elim (Bool-cases (waits (at buf 1) at_end buf)) [
          | inl w ↦ inl (rw (enough, func) (rw (v) (rw (w) refl)))
          | inr w ↦ elim (guess_agree buf) [
            | inl g ↦ inl (rw (enough, func) (rw (v) (rw (w) g)))
            | inr (c, g) ↦ inr (c, rw (enough, func) (rw (v) (rw (w) g)))
          ]
        ]
      ]
]

put_out-some :
    (m : ModbusRtuMessage) (d : Drain) {out : List ModbusRtuMessage} {t : ModbusRtuStream}
    → put_out m d ≡ some (out, t)
    → (rest : List ModbusRtuMessage) × (out ≡ m ∷ rest) × (d ≡ some (rest, t))
put_out-some m none e = absurd (cc)
put_out-some m (some (rest, u)) {out} {t} e =
    let same = some_pair e in (rest, sym (same.0), ap (λ x. some (rest, x)) (same.1))

-- What the loop must do under the strict policy wherever it gives valid messages under the other.
abbrev pub Agrees : (ModbusRtuStream → Drain) → (ModbusRtuStream → Drain) → Type 0
Agrees again strict_again =
    (s t : ModbusRtuStream) (out : List ModbusRtuMessage)
    → again s ≡ some (out, t)
    → All IsValid out
    → s.policy ≡ lenient
    → strict_again (strictly s) ≡ some (out, strictly t)

abbrev taken : Building → Option (Step × ModbusRtuStream)
taken o = o >>= λ b. some (message b.0, b.1)

consume-Agrees :
    (again strict_again : ModbusRtuStream → Drain)
    → Agrees again strict_again
    → (at_end : Bool) (t : ModbusRtuStream) (crc : Bool) (o : Building)
      (out : List ModbusRtuMessage)
    → Flagged crc lenient o
    → round again at_end (taken o) ≡ some (out, t)
    → All IsValid out
    → (crc ≡ true) × (round strict_again at_end (taken (built_strictly o)) ≡ some (out, strictly t))
unfolding round
consume-Agrees again strict_again h at_end t crc none out f e v = absurd (cc)
consume-Agrees again strict_again h at_end t crc (some (m, u)) out f e v =
    let inner = put_out-some m (again (settled u)) e in
    let valid = subst (All IsValid) (inner.1) v in
    let rest = h (settled u) t inner.0 inner.2 valid.1 f.1 in
    (sym f.0 ∙ valid.0, ap (put_out m) rest ∙ ap (λ ms. some (ms, strictly t)) (sym (inner.1)))

take_candidate_within :
    (s : ModbusRtuStream) (c : Candidate) (crc : Bool)
    → ltb (length s.buf) c.len ≡ false
    → take_candidate s c crc ≡ taken (build (behind s c) (take c.len s.buf) c.direction crc)
unfolding take_candidate
take_candidate_within s c crc h = rw h refl

take_candidate_past :
    (s : ModbusRtuStream) (c : Candidate) (crc : Bool)
    → ltb (length s.buf) c.len ≡ true
    → take_candidate s c crc ≡ none
unfolding take_candidate
take_candidate_past s c crc h = rw h refl

round-Agrees :
    (again strict_again : ModbusRtuStream → Drain)
    → Agrees again strict_again
    → (at_end : Bool) (s t : ModbusRtuStream) (ch : Choice) (out : List ModbusRtuMessage)
    → round again at_end (perform s ch) ≡ some (out, t)
    → All IsValid out
    → s.policy ≡ lenient
    → ((c : Candidate) → ch ≢ consume c false)
      × (round strict_again at_end (perform (strictly s) ch) ≡ some (out, strictly t))
unfolding round perform
round-Agrees again strict_again h at_end s t panics out e v p = absurd (cc)
round-Agrees again strict_again h at_end s t (consume c crc) out e v p =
    elim (Bool-cases (ltb (length s.buf) c.len)) [
      | inl past ↦
          let panicked =
            subst (λ o. round again at_end o ≡ some (out, t)) (take_candidate_past s c crc past)
              e in
          absurd (cc)
      | inr within ↦
          let raw = take c.len s.buf in
          let built = build-strictly (behind s c) raw c.direction crc in
          let flagged =
            subst (λ q. Flagged crc q (build (behind s c) raw c.direction crc)) p built.1 in
          let taken_whole =
            subst (λ o. round again at_end o ≡ some (out, t)) (take_candidate_within s c crc within)
              e in
          let both =
            consume-Agrees again strict_again h at_end t crc
              (build (behind s c) raw c.direction crc) out flagged taken_whole v in
          (
            λ d k. let clash = both.0 in cc,
            ap (round strict_again at_end) (take_candidate_within (strictly s) c crc within)
                ∙ ap (λ o. round strict_again at_end (taken o)) (built.0)
                ∙ both.1,
          )
    ]
round-Agrees again strict_again h true s t nothing out e v p =
    let same = some_pair e in
    (
      λ d k. cc,
      ap (λ ms. some (ms, strictly s)) (same.0) ∙ ap (λ x. some (out, strictly x)) (same.1),
    )
round-Agrees again strict_again h false s t nothing out e v p =
    (λ d k. cc, h (dropped s) t out e v p)
round-Agrees again strict_again h at_end s t wait out e v p =
    let same = some_pair e in
    (
      λ d k. cc,
      ap (λ ms. some (ms, strictly s)) (same.0) ∙ ap (λ x. some (out, strictly x)) (same.1),
    )

drain_loop-Agrees :
    (fuel : ℕ) (at_end : Bool) → Agrees (drain_loop fuel at_end) (drain_loop fuel at_end)
unfolding drain_loop take_message skip_to_address
drain_loop-Agrees zero at_end s t out e v p = absurd (cc)
drain_loop-Agrees (suc fuel) at_end s t out e v p =
    let skipped = skip_to_address s in
    let chosen =
      subst
        (λ q.
          round (drain_loop fuel at_end) at_end (perform skipped (choose q at_end skipped.buf))
          ≡ some (out, t))
        p e in
    let agreed =
      round-Agrees (drain_loop fuel at_end) (drain_loop fuel at_end) (drain_loop-Agrees fuel at_end)
        at_end skipped t (choose lenient at_end skipped.buf) out chosen v p in
    elim (choose_agree at_end skipped.buf) [
      | inl same ↦
          ap (λ ch. round (drain_loop fuel at_end) at_end (perform (strictly skipped) ch)) same
          ∙ agreed.1
      | inr (c, guessed) ↦ absurd (agreed.0 c guessed)
    ]

abbrev evicted : Drain → Drain
evicted d = d >>= λ drained. some (drained.0, evict drained.1)

evicted-some :
    (d : Drain) {out : List ModbusRtuMessage} {t : ModbusRtuStream}
    → evicted d ≡ some (out, t)
    → (u : ModbusRtuStream) × (d ≡ some (out, u)) × (t ≡ evict u)
evicted-some none e = absurd (cc)
evicted-some (some (ms, u)) e =
    let same = some_pair e in (u, ap (λ x. some (x, u)) (same.0), sym (same.1))

evict-strictly : (u : ModbusRtuStream) → evict (strictly u) ≡ strictly (evict u)
unfolding evict
evict-strictly u = elim (Bool-cases (ltb max_buffer (length u.buf))) [
  | inl e ↦ rw e refl
  | inr e ↦ rw e refl
]

-- On a stream where the lenient policy finds only messages whose CRC agrees, the strict policy finds
-- the same ones, and leaves the same state.
pub push_bytes-strictly :
    (s t : ModbusRtuStream) (bytes : List ℕ) (out : List ModbusRtuMessage)
    → s.policy ≡ lenient
    → push_bytes s bytes ≡ some (out, t)
    → All IsValid out
    → push_bytes (strictly s) bytes ≡ some (out, strictly t)
unfolding push_bytes drain_messages
push_bytes-strictly s t [] out p e v =
    let same = some_pair e in
    ap (λ ms. some (ms, strictly s)) (same.0) ∙ ap (λ x. some (out, strictly x)) (same.1)
push_bytes-strictly s t (b ∷ bs) out p e v =
    let full : ModbusRtuStream = record s { buf = s.buf ++ (b ∷ bs) } in
    let run = evicted-some (drain_messages false full) e in
    let same = drain_loop-Agrees (suc (length full.buf)) false full run.0 out run.1 v p in
    ap evicted same ∙ ap (λ x. some (out, x)) (evict-strictly run.0 ∙ ap strictly (sym (run.2)))
