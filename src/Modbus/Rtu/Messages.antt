-- ===== src/Modbus/Rtu/Messages.antt =====
-- modbus_rtu_stream.rs: the messages of a push, and the bytes that they are made of.
use wiretap_lib_rs.Base.{
  ℕ, zero, suc, ◌-◌, ◌≤◌, ◌<◌, Bool, true, false, ◌≡◌, refl, sym, ap, ◌∙◌, Option, some, List, [],
  ◌∷◌, ◌++◌, length, take, drop, ltb, arith, Bool-cases, inl, inr, All, take-append-drop,
  length-take, append_assoc,
}
use mathlib.Core.Path.{subst}
use wiretap_lib_rs.Base.Bytes.{at}
use wiretap_lib_rs.Checksum.{crc16_modbus_valid}
use wiretap_lib_rs.Modbus.Rtu.{CrcPolicy, strict, ModbusRtuMessage, Candidate}
use wiretap_lib_rs.Modbus.Rtu.Bounds.{at-take}
use wiretap_lib_rs.Modbus.Rtu.Choices.{Chosen, Built}
use wiretap_lib_rs.Modbus.Rtu.Drained.{
  Drains, stops, drops, yields, settled, dropped, behind, drain_loop-Ran,
}
use wiretap_lib_rs.Modbus.Rtu.Stream.{
  ModbusRtuStream, address_matches, from_address, skip_to_address, drain_messages, evict,
  max_buffer, push_bytes, Drain,
}

-- A message of a stream for an address, under a policy.
pub record IsFramed (address : Option ℕ) (policy : CrcPolicy) (m : ModbusRtuMessage) : Type 0 where
  pub starts : at m.raw 0 ≡ m.device_address
  pub ours : address_matches address m.device_address ≡ true
  pub checked : crc16_modbus_valid m.raw ≡ m.crc_valid
  pub strictly : policy ≡ strict → m.crc_valid ≡ true
  pub sized : 5 ≤ length m.raw

from_address-head :
    (a : Option ℕ) (buf : List ℕ)
    → 0 < length (from_address a buf)
    → address_matches a (at (from_address a buf) 0) ≡ true
unfolding from_address
from_address-head a [] h = absurd (omega arith)
from_address-head a (b ∷ bs) h = elim (Bool-cases (address_matches a b)) [
  | inl e ↦ rw e e
  | inr e ↦ rw e (from_address-head a bs (rw e at h))
]

Built-IsFramed :
    (s : ModbusRtuStream) {u : ModbusRtuStream} {m : ModbusRtuMessage} (c : Candidate) (crc : Bool)
    → Chosen s.policy (skip_to_address s).buf c crc
    → Built (behind (skip_to_address s) c) (take c.len (skip_to_address s).buf) crc m u
    → IsFramed s.device_address s.policy m
unfolding skip_to_address
Built-IsFramed s c crc h b =
    let buf = from_address s.device_address s.buf in
    let first = at-take c.len buf 0 (omega (arith, h.layout)) in
    record {
      starts = rw (b.whole, b.addressed) refl;
      ours =
          rw (b.addressed, first)
            (from_address-head s.device_address s.buf (omega (arith, h.layout, h.fits)));
      checked = rw (b.whole, b.flagged) h.checked;
      strictly = λ e. b.flagged ∙ h.strictly e;
      sized = rw (b.whole) (omega (arith, length-take c.len buf, h.layout, h.fits));
    }

pub Drains-IsFramed :
    {at_end : Bool} (s : ModbusRtuStream) {t : ModbusRtuStream} {out : List ModbusRtuMessage}
    → Drains at_end s out t
    → All (IsFramed s.device_address s.policy) out
unfolding skip_to_address
Drains-IsFramed s (stops e h) = tt
Drains-IsFramed s (drops ending d) = Drains-IsFramed (dropped (skip_to_address s)) d
Drains-IsFramed s (yields {u = u} {out = out} c crc h b d) =
    let address : u.device_address ≡ s.device_address = b.address_kept in
    let policy : u.policy ≡ s.policy = b.policy_kept in
    let later = Drains-IsFramed (settled u) d in
    (
      Built-IsFramed s c crc h b,
      subst (λ a. All (IsFramed a s.policy) out) address
          (subst (λ p. All (IsFramed u.device_address p) out) policy later),
    )

-- The items of one list stand in another, in order.
pub data InOrder : List ℕ → List ℕ → Type 0 where
  done : InOrder [] []
  keep : {x : ℕ} {xs ys : List ℕ} → InOrder xs ys → InOrder (x ∷ xs) (x ∷ ys)
  skip : {y : ℕ} {xs ys : List ℕ} → InOrder xs ys → InOrder xs (y ∷ ys)

pub InOrder-refl : (xs : List ℕ) → InOrder xs xs
InOrder-refl [] = done
InOrder-refl (x ∷ xs) = keep (InOrder-refl xs)

InOrder-nil : (ys : List ℕ) → InOrder [] ys
InOrder-nil [] = done
InOrder-nil (y ∷ ys) = skip (InOrder-nil ys)

InOrder-front : (xs ys : List ℕ) → InOrder xs (xs ++ ys)
InOrder-front [] ys = InOrder-nil ys
InOrder-front (x ∷ xs) ys = keep (InOrder-front xs ys)

InOrder-append : (ps : List ℕ) {xs ys : List ℕ} → InOrder xs ys → InOrder (ps ++ xs) (ps ++ ys)
InOrder-append [] h = h
InOrder-append (p ∷ ps) h = keep (InOrder-append ps h)

InOrder-drop : (n : ℕ) {xs : List ℕ} (ys : List ℕ) → InOrder xs (drop n ys) → InOrder xs ys
InOrder-drop zero ys h = h
InOrder-drop (suc n) [] h = h
InOrder-drop (suc n) (y ∷ ys) h = skip (InOrder-drop n ys h)

InOrder-from_address :
    (a : Option ℕ) {xs : List ℕ} (buf : List ℕ) → InOrder xs (from_address a buf) → InOrder xs buf
unfolding from_address
InOrder-from_address a [] h = h
InOrder-from_address a {xs} (b ∷ bs) h = elim (Bool-cases (address_matches a b)) [
  | inl e ↦ let same : InOrder xs (b ∷ bs) = rw e at h in same
  | inr e ↦
      let later : InOrder xs (from_address a bs) = rw e at h in
      skip (InOrder-from_address a bs later)
]

InOrder-trans : {xs ys zs : List ℕ} → InOrder xs ys → InOrder ys zs → InOrder xs zs
InOrder-trans h done = h
InOrder-trans h (skip k) = skip (InOrder-trans h k)
InOrder-trans (keep h) (keep k) = keep (InOrder-trans h k)
InOrder-trans (skip h) (keep k) = skip (InOrder-trans h k)

-- Bytes left out in front of the kept part.
pub InOrder-cut :
    (n : ℕ) (ps ks : List ℕ) {ys : List ℕ} → InOrder (ps ++ ks) ys → InOrder (ps ++ drop n ks) ys
InOrder-cut n ps ks h =
    InOrder-trans (InOrder-append ps (InOrder-drop n ks (InOrder-refl (drop n ks)))) h

abbrev buf_of : ModbusRtuStream → List ℕ
buf_of s = s.buf

-- The bytes of messages, one after the other.
abbrev pub raws : List ModbusRtuMessage → List ℕ
raws [] = []
raws (m ∷ out) = m.raw ++ raws out

pub Drains-InOrder :
    {at_end : Bool} (s : ModbusRtuStream) {t : ModbusRtuStream} {out : List ModbusRtuMessage}
    → Drains at_end s out t
    → InOrder (raws out ++ t.buf) s.buf
unfolding skip_to_address
Drains-InOrder s (stops e h) =
    InOrder-from_address s.device_address s.buf
      (rw (e) (InOrder-refl (from_address s.device_address s.buf)))
Drains-InOrder s (drops ending d) = InOrder-from_address s.device_address s.buf (
    InOrder-drop 1 (from_address s.device_address s.buf)
      (Drains-InOrder (dropped (skip_to_address s)) d))
Drains-InOrder s {t} (yields {u = u} {m = m} {out = out} c crc h b d) =
    let buf = from_address s.device_address s.buf in
    let rest : InOrder (raws out ++ t.buf) (drop c.len buf) =
      rw (← b.buf_kept) (Drains-InOrder (settled u) d) in
    let whole : InOrder (take c.len buf ++ (raws out ++ t.buf)) buf =
      rw (take-append-drop c.len buf) at (InOrder-append (take c.len buf) rest) in
    InOrder-from_address s.device_address s.buf
      (rw (b.whole) (rw (append_assoc (take c.len buf) (raws out) t.buf) whole))

-- A push as a run of the loop.
pub data Pushed (s : ModbusRtuStream) (bytes : List ℕ)
    : List ModbusRtuMessage → ModbusRtuStream → Type 0 where
  unchanged : {t : ModbusRtuStream} → t ≡ s → Pushed s bytes [] t
  drained :
      {out : List ModbusRtuMessage} {t : ModbusRtuStream} (u : ModbusRtuStream)
      → Drains false (record s { buf = s.buf ++ bytes }) out u
      → t ≡ evict u
      → Pushed s bytes out t

pub some_pair :
    {x y : List ModbusRtuMessage} {s t : ModbusRtuStream}
    → ◌≡◌ {A = Drain} (some (x, s)) (some (y, t))
    → (x ≡ y) × (s ≡ t)
some_pair e = (cc, cc)

push_bytes_ran :
    (s : ModbusRtuStream) (bytes : List ℕ)
    → (out : List ModbusRtuMessage) × (t : ModbusRtuStream) × (push_bytes s bytes ≡ some (out, t))
      × Pushed s bytes out t
unfolding push_bytes drain_messages
push_bytes_ran s [] = ([], s, refl, unchanged refl)
push_bytes_ran s (b ∷ bs) =
    let full : ModbusRtuStream = record s { buf = s.buf ++ (b ∷ bs) } in
    let ran = drain_loop-Ran (suc (length full.buf)) false full (omega arith) in
    (ran.0, evict ran.1, rw (ran.2) refl, drained ran.1 ran.3 refl)

pub push_bytes-Pushed :
    (s : ModbusRtuStream) (bytes : List ℕ) (out : List ModbusRtuMessage) (t : ModbusRtuStream)
    → push_bytes s bytes ≡ some (out, t)
    → Pushed s bytes out t
push_bytes-Pushed s bytes out t e =
    let ran = push_bytes_ran s bytes in
    let same = some_pair (sym (ran.2) ∙ e) in
    let outs = same.0 in let ends = same.1 in rw (← outs, ← ends) ran.3

-- Each message that a push puts out begins at an address that the stream is for, is flagged by
-- whether its CRC agrees, and under the strict policy its CRC agrees.
pub push_bytes-IsFramed :
    (s t : ModbusRtuStream) (bytes : List ℕ) (out : List ModbusRtuMessage)
    → push_bytes s bytes ≡ some (out, t)
    → All (IsFramed s.device_address s.policy) out
push_bytes-IsFramed s t bytes out e = framed out (push_bytes-Pushed s bytes out t e)
  where
    framed :
        (ms : List ModbusRtuMessage)
        → Pushed s bytes ms t
        → All (IsFramed s.device_address s.policy) ms
    framed ms (unchanged p) = tt
    framed ms (drained u d p) = Drains-IsFramed (record s { buf = s.buf ++ bytes }) d

InOrder-evict :
    (ps : List ℕ) (u : ModbusRtuStream) {ys : List ℕ}
    → InOrder (ps ++ u.buf) ys
    → InOrder (ps ++ (evict u).buf) ys
unfolding evict
InOrder-evict ps u h = elim (Bool-cases (ltb max_buffer (length u.buf))) [
  | inl e ↦ rw (e) (InOrder-cut (length u.buf - max_buffer) ps u.buf h)
  | inr e ↦ rw (e) h
]

-- The bytes of the messages that a push puts out, and then those it keeps, are bytes of the buffer
-- and of the push, each used once and in their order.
pub push_bytes-InOrder :
    (s t : ModbusRtuStream) (bytes : List ℕ) (out : List ModbusRtuMessage)
    → push_bytes s bytes ≡ some (out, t)
    → InOrder (raws out ++ t.buf) (s.buf ++ bytes)
push_bytes-InOrder s t bytes out e = ordered out (push_bytes-Pushed s bytes out t e)
  where
    ordered :
        (ms : List ModbusRtuMessage)
        → Pushed s bytes ms t
        → InOrder (raws ms ++ t.buf) (s.buf ++ bytes)
    ordered ms (unchanged p) = rw (ap buf_of p) (InOrder-front s.buf bytes)
    ordered ms (drained u d p) =
        rw (p) (InOrder-evict (raws ms) u (Drains-InOrder (record s { buf = s.buf ++ bytes }) d))
