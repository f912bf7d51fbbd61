-- ===== src/Modbus/Rtu/Choices.antt =====
-- modbus_rtu_stream.rs: what `take_message` consumes.
use wiretap_lib_rs.Base.{
  ℕ, ◌≤◌, max, Bool, true, false, ◌≡◌, refl, sym, ◌∙◌, ◌⊎◌, Option, none, some, List, [], ◌∷◌,
  length, take, ltb, arith, Bool-cases, Option-cases, inl, inr, length-take,
}
use native.Mathlib.Decide.{dec_lt}
use wiretap_lib_rs.Base.Bytes.{at}
use wiretap_lib_rs.Checksum.{crc16_modbus_valid}
use wiretap_lib_rs.Modbus.Rtu.{
  Direction, CrcPolicy, strict, lenient, ModbusRtuMessage, Candidate, candidates, find, fields_of,
  resolve,
}
use wiretap_lib_rs.Modbus.Rtu.Bounds.{
  value_of, IsLayout, AllSome, find_found, candidates-IsLayout, fields_of_given, extent, at-take,
  get_elem?-at,
}
use wiretap_lib_rs.Modbus.Rtu.Stream.{
  ModbusRtuStream, consume, nothing, wait, fits_valid, fits_plausible, guess, unvalidated, choose,
  build,
}

-- What a consumed candidate has been tested for.
pub record Chosen (policy : CrcPolicy) (buf : List ℕ) (c : Candidate) (crc : Bool) : Type 0 where
  pub layout : IsLayout buf c
  pub fits : c.len ≤ length buf
  pub checked : crc16_modbus_valid (take c.len buf) ≡ crc
  pub strictly : policy ≡ strict → crc ≡ true

find-none :
    (test : Candidate → Bool) (cs : List (Option Candidate))
    → find test cs ≡ none
    → AllSome (λ c. test c ≡ false) cs
unfolding find
find-none test [] e = tt
find-none test (none ∷ cs) e = find-none test cs e
find-none test (some c ∷ cs) e = elim (Bool-cases (test c)) [
  | inl t ↦ let found : some c ≡ none = rw t at e in absurd (cc)
  | inr t ↦ (t, find-none test cs (rw t at e))
]

both :
    (P Q : Candidate → Type 0) (cs : List (Option Candidate))
    → AllSome P cs
    → AllSome Q cs
    → AllSome (λ c. P c × Q c) cs
both P Q [] a b = tt
both P Q (none ∷ cs) a b = both P Q cs a b
both P Q (some c ∷ cs) a b = ((a.0, b.0), both P Q cs a.1 b.1)

Chosen-valid :
    (policy : CrcPolicy) (buf : List ℕ) (c : Candidate)
    → find (fits_valid buf) (candidates (at buf 1) buf) ≡ some c
    → Chosen policy buf c true
Chosen-valid policy buf c e =
    let found =
      find_found (IsLayout buf) (fits_valid buf) (candidates (at buf 1) buf)
        (candidates-IsLayout buf) e in
    let tested = found.1 in
    record {
      layout = found.0;
      fits = ground (arith, tested);
      checked = ground (arith, tested);
      strictly = λ s. refl;
    }

guess-Chosen :
    (policy : CrcPolicy) (buf : List ℕ) (c : Candidate) (crc : Bool)
    → find (fits_valid buf) (candidates (at buf 1) buf) ≡ none
    → guess (at buf 1) policy buf ≡ consume c crc
    → Chosen policy buf c crc
unfolding guess
guess-Chosen strict buf c crc v e = absurd (cc)
guess-Chosen lenient buf c crc v e =
    elim (Option-cases (find (fits_plausible (at buf 1) buf) (candidates (at buf 1) buf))) [
      | inl n ↦ let clash : nothing ≡ consume c crc = rw (n, guess) at e in absurd (cc)
      | inr (d, f) ↦
          let same : consume d false ≡ consume c crc = rw (f, guess) at e in
          let len_same : d ≡ c = cc in
          let crc_same : false ≡ crc = cc in rw (← crc_same, ← len_same) (guessed buf d v f)
    ]
  where
    guessed :
        (b : List ℕ) (k : Candidate)
        → find (fits_valid b) (candidates (at b 1) b) ≡ none
        → find (fits_plausible (at b 1) b) (candidates (at b 1) b) ≡ some k
        → Chosen lenient b k false
    guessed b k none_valid f =
        let found =
          find_found (λ x. IsLayout b x × (fits_valid b x ≡ false)) (fits_plausible (at b 1) b)
            (candidates (at b 1) b)
            (both (IsLayout b) (λ x. fits_valid b x ≡ false) (candidates (at b 1) b)
              (candidates-IsLayout b) (find-none (fits_valid b) (candidates (at b 1) b) none_valid))
            f in
        let tested = found.1 in
        let failed = found.0.1 in
        record {
          layout = found.0.0;
          fits = ground (arith, tested);
          checked = ground (arith, tested, failed);
          strictly = λ s. absurd (cc);
        }

-- The head of a buffer, where it holds four bytes: a valid candidate, or none.
pub choose_cases :
    (policy : CrcPolicy) (at_end : Bool) (buf : List ℕ)
    → (choose policy at_end buf ≡ wait)
      ⊎ (((c : Candidate) × (find (fits_valid buf) (candidates (at buf 1) buf) ≡ some c)
            × (choose policy at_end buf ≡ consume c true))
          ⊎ ((find (fits_valid buf) (candidates (at buf 1) buf) ≡ none)
              × (choose policy at_end buf ≡ unvalidated (at buf 1) policy at_end buf)))
unfolding choose
choose_cases policy at_end buf = elim (Bool-cases (ltb (length buf) 4)) [
  | inl few ↦ rw few (inl refl)
  | inr enough ↦
      let func = get_elem?-at buf 1 (ground (arith, enough)) in
      elim (Option-cases (find (fits_valid buf) (candidates (at buf 1) buf))) [
        | inl e ↦ rw (enough) (rw (func) (rw (e) (inr (inr (refl, refl)))))
        | inr (c, e) ↦ rw (enough) (rw (func) (rw (e) (inr (inl (c, refl, refl)))))
      ]
]

unvalidated_consume :
    (policy : CrcPolicy) (at_end : Bool) (buf : List ℕ) (c : Candidate) (crc : Bool)
    → unvalidated (at buf 1) policy at_end buf ≡ consume c crc
    → guess (at buf 1) policy buf ≡ consume c crc
unfolding unvalidated
unvalidated_consume policy at_end buf c crc e = ground (arith, e)

pub choose-Chosen :
    (policy : CrcPolicy) (at_end : Bool) (buf : List ℕ) (c : Candidate) (crc : Bool)
    → choose policy at_end buf ≡ consume c crc
    → Chosen policy buf c crc
choose-Chosen policy at_end buf c crc e = elim (choose_cases policy at_end buf) [
  | inl w ↦ let clash : wait ≡ consume c crc = sym w ∙ e in absurd (cc)
  | inr (inl (d, f, k)) ↦
      let same : consume d true ≡ consume c crc = sym k ∙ e in
      let len_same : d ≡ c = cc in
      let crc_same : true ≡ crc = cc in rw (← crc_same, ← len_same) (Chosen-valid policy buf d f)
  | inr (inr (v, k)) ↦ by_wait v (sym k ∙ e)
]
  where
    by_wait :
        find (fits_valid buf) (candidates (at buf 1) buf) ≡ none
        → unvalidated (at buf 1) policy at_end buf ≡ consume c crc
        → Chosen policy buf c crc
    by_wait v u = guess-Chosen policy buf c crc v (unvalidated_consume policy at_end buf c crc u)

-- A message that is built, and the stream behind it.
pub record Built (s : ModbusRtuStream) (raw : List ℕ) (crc : Bool) (m : ModbusRtuMessage)
    (t : ModbusRtuStream) : Type 0 where
  pub whole : m.raw ≡ raw
  pub flagged : m.crc_valid ≡ crc
  pub addressed : m.device_address ≡ at raw 0
  pub spans : m.frame_count ≡ max s.pending_frames 1
  pub buf_kept : t.buf ≡ s.buf
  pub address_kept : t.device_address ≡ s.device_address
  pub policy_kept : t.policy ≡ s.policy
  pub pending_kept : t.pending_frames ≡ s.pending_frames

pub build_total :
    (s : ModbusRtuStream) (raw : List ℕ) (d : Direction) (crc : Bool)
    → 2 ≤ length raw
    → extent (at raw 1) d raw ≤ length raw
    → (m : ModbusRtuMessage) × (t : ModbusRtuStream) × (build s raw d crc ≡ some (m, t))
      × Built s raw crc m t
unfolding build
build_total s raw d crc long h =
    let read =
      value_of (fields_of (at raw 1) d raw s.last_request)
        (fields_of_given (at raw 1) d raw s.last_request h) in
    let fs = resolve (at raw 1) read.0 in
    (
      record {
        direction = fs.direction;
        device_address = at raw 0;
        function = at raw 1;
        start_register = fs.start_register;
        quantity = fs.quantity;
        registers = fs.registers;
        exception = fs.exception;
        raw = raw;
        crc_valid = crc;
        frame_count = max s.pending_frames 1;
      },
      record s { last_request = fs.last_request },
      rw (get_elem?-at raw 0 (omega arith), get_elem?-at raw 1 (omega arith)) (rw (read.1) refl),
      record {
        whole = refl;
        flagged = refl;
        addressed = refl;
        spans = refl;
        buf_kept = refl;
        address_kept = refl;
        policy_kept = refl;
        pending_kept = refl;
      },
    )

-- The layout of a candidate's bytes, taken off the buffer.
pub extent-take :
    (buf : List ℕ) (c : Candidate)
    → IsLayout buf c
    → c.len ≤ length buf
    → (2 ≤ length (take c.len buf))
      × (extent (at (take c.len buf) 1) c.direction (take c.len buf) ≤ length (take c.len buf))
extent-take buf c layout fits =
    let long = length-take c.len buf in
    let f = at-take c.len buf 1 (omega (arith, layout)) in
    let n = at-take c.len buf 2 (omega (arith, layout)) in
    let size : length (take c.len buf) ≡ c.len = omega (arith, long, fits) in
    let enough : extent (at buf 1) c.direction (take c.len buf) ≤ c.len = elim (dec_lt 6 c.len) [
      | yes far ↦ let m = at-take c.len buf 6 far in ground (arith, n, m, layout)
      | no near ↦ ground (arith, n, near, layout)
    ] in
    (omega (arith, long, layout), rw (f, size) enough)
