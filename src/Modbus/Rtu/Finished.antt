-- ===== src/Modbus/Rtu/Finished.antt =====
-- modbus_rtu_stream.rs: the end of a stream.
use wiretap_lib_rs.Base.{
  ℕ, suc, true, false, ◌≡◌, refl, sym, ap, ◌∙◌, Option, some, List, [], ◌∷◌, ◌++◌, drop, length,
  take-append-drop, arith, Bool-cases, inl, inr,
}
use mathlib.Core.Path.{subst}
use wiretap_lib_rs.Modbus.Rtu.{ModbusRtuMessage}
use wiretap_lib_rs.Modbus.Rtu.Drained.{Drains, stops, drops, yields, drain_loop-Ran, settled}
use wiretap_lib_rs.Modbus.Rtu.Stream.{
  ModbusRtuStream, drain_messages, finish, skip_to_address, from_address, address_matches,
}
use wiretap_lib_rs.Modbus.Rtu.Residue.{IsResidue, Drains-IsResidue}

-- A finish as a run of the loop.
finish_ran :
    (s : ModbusRtuStream)
    → (out : List ModbusRtuMessage) × (u : ModbusRtuStream) × (finish s
        ≡ some (out, u.buf, record u { pending_frames = 0; buf = [] }))
      × Drains true s out u
unfolding finish drain_messages
finish_ran s =
    let ran = drain_loop-Ran (suc (length s.buf)) true s (omega arith) in
    (ran.0, ran.1, rw (ran.2) refl, ran.3)

some_triple :
    {x y : List ModbusRtuMessage} {b c : List ℕ} {s t : ModbusRtuStream}
    → ◌≡◌ {A = Option (List ModbusRtuMessage × List ℕ × ModbusRtuStream)}
        (some (x, b, s))
        (some (y, c, t))
    → (x ≡ y) × (b ≡ c) × (s ≡ t)
some_triple e = (cc, cc, cc)

-- Bytes are cut into messages and the bytes left over, but for those in front of a message, or of
-- what is left, that are no address of the stream's device.
pub data IsCut (address : Option ℕ) : List ℕ → List ModbusRtuMessage → List ℕ → Type 0 where
  left : {rest : List ℕ} → IsCut address rest [] rest
  junk :
      {b : ℕ} {bs rest : List ℕ} {out : List ModbusRtuMessage}
      → address_matches address b ≡ false
      → IsCut address bs out rest
      → IsCut address (b ∷ bs) out rest
  cut :
      {bs rest : List ℕ} {m : ModbusRtuMessage} {out : List ModbusRtuMessage}
      → IsCut address bs out rest
      → IsCut address (m.raw ++ bs) (m ∷ out) rest

IsCut-from_address :
    (address : Option ℕ) (bs : List ℕ) {out : List ModbusRtuMessage} {rest : List ℕ}
    → IsCut address (from_address address bs) out rest
    → IsCut address bs out rest
unfolding from_address
IsCut-from_address address [] h = h
IsCut-from_address address (b ∷ bs) {out} {rest} h = elim (Bool-cases (address_matches address b)) [
  | inl e ↦ let same : IsCut address (b ∷ bs) out rest = rw e at h in same
  | inr e ↦
      let later : IsCut address (from_address address bs) out rest = rw e at h in
      junk e (IsCut-from_address address bs later)
]

Drains-IsCut :
    (s : ModbusRtuStream) {t : ModbusRtuStream} {out : List ModbusRtuMessage}
    → Drains true s out t
    → IsCut s.device_address s.buf out t.buf
unfolding skip_to_address
Drains-IsCut s (stops e h) = IsCut-from_address s.device_address s.buf (
    subst
      (λ (x : ModbusRtuStream).
        IsCut s.device_address (from_address s.device_address s.buf) [] x.buf)
      (sym e) left)
Drains-IsCut s (drops ending d) = absurd (cc)
Drains-IsCut s {t} (yields {u = u} {m = m} {out = out} c crc h b d) =
    let buf = from_address s.device_address s.buf in
    let rest : IsCut s.device_address (drop c.len buf) out t.buf =
      rw (← b.buf_kept, ← b.address_kept) (Drains-IsCut (settled u) d) in
    let whole : IsCut s.device_address (m.raw ++ drop c.len buf) (m ∷ out) t.buf = cut rest in
    let joined : m.raw ++ drop c.len buf ≡ buf =
      ap (λ x. x ++ drop c.len buf) (b.whole) ∙ take-append-drop c.len buf in
    IsCut-from_address s.device_address s.buf
      (subst (λ x. IsCut s.device_address x (m ∷ out) t.buf) joined whole)

-- At the end of a stream the buffer is cut into the messages put out and the bytes left over, and
-- all else that it held, in front of these, is no address of the device; the bytes left over are no
-- message, and the buffer is emptied.
pub finish-IsResidue :
    (s t : ModbusRtuStream) (out : List ModbusRtuMessage) (rest : List ℕ)
    → finish s ≡ some (out, rest, t)
    → IsResidue s.policy rest × IsCut s.device_address s.buf out rest × (t.buf ≡ [])
finish-IsResidue s t out rest e =
    let ran = finish_ran s in
    let same = some_triple (sym (ran.2) ∙ e) in
    (
      subst (IsResidue s.policy) (same.1) (Drains-IsResidue (ran.3)),
      subst (λ b. IsCut s.device_address s.buf out b) (same.1)
          (subst (λ ms. IsCut s.device_address s.buf ms ran.1.buf) (same.0)
            (Drains-IsCut s (ran.3))),
      sym (ap (λ (x : ModbusRtuStream). x.buf) (same.2)),
    )
