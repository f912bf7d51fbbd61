-- ===== src/Modbus/Rtu/Interpret.antt =====
-- modbus_rtu_stream.rs: messages that are already framed, beside those that a stream is cut into.
use wiretap_lib_rs.Base.{
  ℕ, zero, suc, ◌≤◌, ◌<◌, Bool, true, false, not, ◌&&◌, ◌≡◌, refl, sym, ap, ◌∙◌, Option, none, some,
  List, [], ◌∷◌, length, drop, ltb, arith, Bool-cases, Option-cases, inl, inr, ◌>>=◌, take-ge,
  of_bool,
}
use mathlib.Core.Path.{subst}
use wiretap_lib_rs.Base.Bytes.{at}
use wiretap_lib_rs.Checksum.{crc16_modbus_valid}
use wiretap_lib_rs.Modbus.Rtu.{
  CrcPolicy, ModbusRtuMessage, Candidate, candidates, longest_first, layouts, find, is_plausible,
}
use wiretap_lib_rs.Modbus.Rtu.Bounds.{get_elem?-at}
use wiretap_lib_rs.Modbus.Rtu.Choices.{Built}
use wiretap_lib_rs.Modbus.Rtu.Drained.{settled}
use wiretap_lib_rs.Modbus.Rtu.Stream.{
  ModbusRtuStream, message, consume, choose, fits_valid, build, address_matches, from_address,
  skip_to_address, take_candidate, take_message, perform, put_out, round, drain_loop,
  drain_messages, push_bytes, interpret, interpret_for, interpret_as, is_whole, evict, is_empty,
}
use wiretap_lib_rs.Modbus.Rtu.Returns.{whole-IsLayout, whole-Built, interpret_long}

fits_whole :
    (raw : List ℕ) (k : Candidate)
    → crc16_modbus_valid raw ≡ true
    → k.len ≡ length raw
    → fits_valid raw k ≡ true
fits_whole raw k v e = rw (take-ge k.len raw (omega (arith, e)), v) (ground (arith, e))

fits_long : (raw : List ℕ) (k : Candidate) → length raw < k.len → fits_valid raw k ≡ false
fits_long raw k h = ground (arith, h)

find_single :
    (raw : List ℕ) (b c : Candidate)
    → crc16_modbus_valid raw ≡ true
    → find (is_whole raw) (some b ∷ []) ≡ some c
    → find (fits_valid raw) (some b ∷ []) ≡ some c
unfolding find
find_single raw b c v e = elim (Bool-cases (is_whole raw b)) [
  | inl w ↦ rw (fits_whole raw b v (ground (arith, w))) (rw w at e)
  | inr w ↦ let clash : none ≡ some c = rw w at e in absurd (cc)
]

-- In a pair that is in order, the layout of the whole of valid bytes is the first that validates.
find_ordered :
    (raw : List ℕ) (a b c : Candidate)
    → b.len ≤ a.len
    → crc16_modbus_valid raw ≡ true
    → find (is_whole raw) (some a ∷ some b ∷ []) ≡ some c
    → find (fits_valid raw) (some a ∷ some b ∷ []) ≡ some c
unfolding find
find_ordered raw a b c h v e = elim (Bool-cases (is_whole raw a)) [
  | inl w ↦ rw (fits_whole raw a v (ground (arith, w))) (rw w at e)
  | inr w ↦
      let later : find (is_whole raw) (some b ∷ []) ≡ some c = rw w at e in
      elim (Bool-cases (is_whole raw b)) [
        | inl u ↦
            let longer : length raw < a.len = ground (arith, h, u, w) in
            rw (fits_long raw a longer) (find_single raw b c v later)
        | inr u ↦ let clash : none ≡ some c = rw u at later in absurd (cc)
      ]
]

find_longest :
    (raw : List ℕ) (x y : Option Candidate) (c : Candidate)
    → crc16_modbus_valid raw ≡ true
    → find (is_whole raw) (longest_first x y) ≡ some c
    → find (fits_valid raw) (longest_first x y) ≡ some c
unfolding find
find_longest raw none none c v e = absurd (cc)
find_longest raw none (some y) c v e = find_single raw y c v e
find_longest raw (some x) none c v e = find_single raw x c v e
find_longest raw (some x) (some y) c v e = elim (Bool-cases (ltb x.len y.len)) [
  | inl l ↦ rw (l) (find_ordered raw y x c (ground (arith, l)) v (rw l at e))
  | inr l ↦ rw (l) (find_ordered raw x y c (ground (arith, l)) v (rw l at e))
]

fits_candidate :
    (raw : List ℕ) (c : Candidate)
    → crc16_modbus_valid raw ≡ true
    → find (is_whole raw) (candidates (at raw 1) raw) ≡ some c
    → find (fits_valid raw) (candidates (at raw 1) raw) ≡ some c
unfolding candidates
fits_candidate raw c v e = let pair = layouts (at raw 1) raw in find_longest raw pair.0 pair.1 c v e

from_address_whole :
    (a : Option ℕ) (b : ℕ) (bs : List ℕ)
    → address_matches a b ≡ true
    → from_address a (b ∷ bs) ≡ b ∷ bs
unfolding from_address
from_address_whole a b bs h = rw h refl

interpret_as_lem :
    (s t : ModbusRtuStream) (raw : List ℕ) (c : Candidate) (m : ModbusRtuMessage)
    → interpret_as s (at raw 1) raw c ≡ some (some m, t)
    → build s raw c.direction (crc16_modbus_valid raw) ≡ some (m, t)
unfolding interpret_as
interpret_as_lem s t raw c m e =
    elim (Bool-cases (not (crc16_modbus_valid raw) && not (is_plausible (at raw 1) raw c))) [
      | inl refused ↦
          let clash : ◌≡◌ {A = Option (Option ModbusRtuMessage × ModbusRtuStream)} (some (none, s))
              (some (some m, t)) =
            rw refused at e in
          absurd (cc)
      | inr taken ↦ given (build s raw c.direction (crc16_modbus_valid raw)) (rw taken at e)
    ]
  where
    given :
        (o : Option (ModbusRtuMessage × ModbusRtuStream))
        → ◌≡◌ {A = Option (Option ModbusRtuMessage × ModbusRtuStream)}
            (o >>= λ r. some (some r.0, r.1))
            (some (some m, t))
        → o ≡ some (m, t)
    given none k = absurd (cc)
    given (some (x, u)) k =
        let messages : some x ≡ some m = cc in
        let same : x ≡ m = cc in let streams : u ≡ t = cc in rw (same, streams) refl

no_message_given :
    (s t : ModbusRtuStream) (m : ModbusRtuMessage)
    → ◌≡◌ {A = Option (Option ModbusRtuMessage × ModbusRtuStream)}
        (some (none, s))
        (some (some m, t))
    → ⊥
no_message_given s t m k = cc

interpret_for_lem :
    (s t : ModbusRtuStream) (raw : List ℕ) (m : ModbusRtuMessage)
    → interpret_for s (at raw 1) raw ≡ some (some m, t)
    → (c : Candidate) × (find (is_whole raw) (candidates (at raw 1) raw) ≡ some c)
      × (build s raw c.direction (crc16_modbus_valid raw) ≡ some (m, t))
unfolding interpret_for
interpret_for_lem s t raw m e =
    elim (Option-cases (find (is_whole raw) (candidates (at raw 1) raw))) [
      | inl n ↦ absurd (no_message_given s t m (rw (n, interpret_for) at e))
      | inr (c, f) ↦ (c, f, interpret_as_lem s t raw c m (rw (f, interpret_for) at e))
    ]

-- What an interpreted message was tested for.
interpret_lem :
    (s t : ModbusRtuStream) (raw : List ℕ) (m : ModbusRtuMessage)
    → interpret s raw ≡ some (some m, t)
    → (c : Candidate) × (4 ≤ length raw)
      × (address_matches s.device_address (at raw 0) ≡ true)
      × (find (is_whole raw) (candidates (at raw 1) raw) ≡ some c)
      × (build s raw c.direction (crc16_modbus_valid raw) ≡ some (m, t))
unfolding interpret
interpret_lem s t raw m e = elim (Bool-cases (ltb (length raw) 4)) [
  | inl short ↦ absurd (no_message_given s t m (rw short at e))
  | inr long ↦
      let enough : 4 ≤ length raw = ground (arith, long) in
      let given = sym (interpret_long s raw enough) ∙ e in
      elim (Bool-cases (address_matches s.device_address (at raw 0))) [
        | inl ours ↦
            let (c, f, built) = interpret_for_lem s t raw m (rw ours at given) in
            (c, enough, ours, f, built)
        | inr other ↦ absurd (no_message_given s t m (rw other at given))
      ]
]

idle : (k : ℕ) (u : ModbusRtuStream) → u.buf ≡ [] → drain_loop (suc k) false u ≡ some ([], u)
unfolding drain_loop take_message skip_to_address from_address choose perform round
idle k u h =
    let emptied : record u { buf = [] } ≡ u = ap (λ b. record u { buf = b }) (sym h) in
    subst (λ x. drain_loop (suc k) false x ≡ some ([], x)) emptied refl

pair_same :
    {m n : ModbusRtuMessage} {s t : ModbusRtuStream}
    → ◌≡◌ {A = Option (ModbusRtuMessage × ModbusRtuStream)} (some (m, s)) (some (n, t))
    → (m ≡ n) × (s ≡ t)
pair_same e = (cc, cc)

Built-unique :
    (s t : ModbusRtuStream) (raw : List ℕ) (c : Candidate) (crc : Bool) (m : ModbusRtuMessage)
    → find (is_whole raw) (candidates (at raw 1) raw) ≡ some c
    → build s raw c.direction crc ≡ some (m, t)
    → Built s raw crc m t
Built-unique s t raw c crc m f e =
    let whole = whole-Built s raw c crc f in
    let same = pair_same (sym (whole.2) ∙ e) in
    subst (λ x. Built s raw crc x t) (same.0) (subst (Built s raw crc whole.0) (same.1) whole.3)

drop-ge : (n : ℕ) (xs : List ℕ) → length xs ≤ n → drop n xs ≡ []
drop-ge zero [] h = refl
drop-ge zero (x ∷ xs) h = absurd (omega arith)
drop-ge (suc n) [] h = refl
drop-ge (suc n) (x ∷ xs) h = drop-ge n xs (omega arith)

choose_whole :
    (policy : CrcPolicy) (raw : List ℕ) (c : Candidate)
    → 4 ≤ length raw
    → crc16_modbus_valid raw ≡ true
    → find (is_whole raw) (candidates (at raw 1) raw) ≡ some c
    → choose policy false raw ≡ consume c true
unfolding choose
choose_whole policy raw c h v f =
    let enough : ltb (length raw) 4 ≡ false = ground (arith, h) in
    rw (enough) (rw (get_elem?-at raw 1 (omega (arith, h))) (rw (fits_candidate raw c v f) refl))

take_whole :
    (s t : ModbusRtuStream) (raw : List ℕ) (c : Candidate) (m : ModbusRtuMessage)
    → c.len ≡ length raw
    → build (record s { buf = [] }) raw c.direction true ≡ some (m, t)
    → take_candidate (record s { buf = raw }) c true ≡ some (message m, t)
unfolding take_candidate
take_whole s t raw c m l e =
    let within : ltb (length raw) c.len ≡ false = ground (arith, l) in
    rw (within, take-ge c.len raw (omega (arith, l)), drop-ge c.len raw (omega (arith, l)))
      (rw e refl)

round_whole :
    (k : ℕ) (t : ModbusRtuStream) (m : ModbusRtuMessage)
    → t.buf ≡ []
    → round (drain_loop (suc k) false) false (some (message m, t))
      ≡ some (m ∷ [], record t { pending_frames = 0 })
unfolding round
round_whole k t m h =
    let quiet : settled t ≡ record t { pending_frames = 0 } =
      ap (λ b. record t { pending_frames = of_bool (not (is_empty b)) }) h in
    ap (put_out m) (idle k (settled t) h) ∙ ap (λ x. some (m ∷ [], x)) quiet

drain_whole :
    (s t : ModbusRtuStream) (b : ℕ) (bs : List ℕ) (c : Candidate) (m : ModbusRtuMessage)
    → t.buf ≡ []
    → address_matches s.device_address b ≡ true
    → choose s.policy false (b ∷ bs) ≡ consume c true
    → take_candidate (record s { buf = b ∷ bs }) c true ≡ some (message m, t)
    → drain_loop (suc (suc (length bs))) false (record s { buf = b ∷ bs })
      ≡ some (m ∷ [], record t { pending_frames = 0 })
unfolding drain_loop take_message skip_to_address perform
drain_whole s t b bs c m h a ch e =
    rw (from_address_whole s.device_address b bs a)
      (rw (ch) (rw (e) (round_whole (length bs) t m h)))

evict_empty : (t : ModbusRtuStream) → t.buf ≡ [] → evict t ≡ t
unfolding evict
evict_empty t h = rw h refl

push_whole :
    (s t : ModbusRtuStream) (raw : List ℕ) (m : ModbusRtuMessage)
    → interpret (record s { buf = [] }) raw ≡ some (some m, t)
    → m.crc_valid ≡ true
    → push_bytes (record s { buf = [] }) raw ≡ some (m ∷ [], record t { pending_frames = 0 })
unfolding push_bytes drain_messages
push_whole s t [] m e v =
    let read = interpret_lem (record s { buf = [] }) t [] m e in absurd (omega (arith, read.1))
push_whole s t (b ∷ bs) m e v =
    let (c, long, ours, f, e') = interpret_lem (record s { buf = [] }) t (b ∷ bs) m e in
    let built =
      Built-unique (record s { buf = [] }) t (b ∷ bs) c (crc16_modbus_valid (b ∷ bs)) m f e' in
    let valid : crc16_modbus_valid (b ∷ bs) ≡ true = sym (built.flagged) ∙ v in
    let message_built =
      subst (λ x. build (record s { buf = [] }) (b ∷ bs) c.direction x ≡ some (m, t)) valid e' in
    let taken = take_whole s t (b ∷ bs) c m (whole-IsLayout (b ∷ bs) c f).1 message_built in
    let drained =
      drain_whole s t b bs c m built.buf_kept ours (choose_whole s.policy (b ∷ bs) c long valid f)
        taken in
    rw (drained)
      (ap (λ x. some (m ∷ [], x)) (evict_empty (record t { pending_frames = 0 }) built.buf_kept))

-- Bytes that are one whole message, and whose CRC agrees, are read alike by an idle stream that is
-- pushed them and by a call that takes them as framed: the same message, the same outstanding request.
pub interpret-push :
    (s t : ModbusRtuStream) (raw : List ℕ) (m : ModbusRtuMessage)
    → s.buf ≡ []
    → interpret s raw ≡ some (some m, t)
    → m.crc_valid ≡ true
    → push_bytes s raw ≡ some (m ∷ [], record t { pending_frames = 0 })
interpret-push s t raw m waiting e v =
    let emptied : record s { buf = [] } ≡ s = ap (λ b. record s { buf = b }) (sym waiting) in
    subst (λ x. push_bytes x raw ≡ some (m ∷ [], record t { pending_frames = 0 })) emptied
      (push_whole s t raw m (subst (λ x. interpret x raw ≡ some (some m, t)) (sym emptied) e) v)
