-- ===== src/Modbus/Rtu/Returns.antt =====
-- modbus_rtu_stream.rs: that each operation returns.
use wiretap_lib_rs.Base.{
  ℕ, suc, Bool, true, false, not, ◌&&◌, ◌≤◌, ◌≡◌, refl, sym, if◌then◌else◌, Option, none, some,
  List, [], ◌∷◌, ◌++◌, length, take, ltb, arith, Bool-cases, Option-cases, inl, inr, ◌>>=◌, take-ge,
}
use mathlib.Core.Path.{subst}
use wiretap_lib_rs.Base.Bytes.{at}
use wiretap_lib_rs.Checksum.{crc16_modbus_valid}
use wiretap_lib_rs.Modbus.Rtu.{ModbusRtuMessage, Candidate, candidates, find, is_plausible}
use wiretap_lib_rs.Modbus.Rtu.Bounds.{
  IsSome, get_elem?-at, IsLayout, find_found, candidates-IsLayout,
}
use wiretap_lib_rs.Modbus.Rtu.Choices.{Built, build_total, extent-take}
use wiretap_lib_rs.Modbus.Rtu.Drained.{drain_loop-Ran}
use wiretap_lib_rs.Modbus.Rtu.Stream.{
  ModbusRtuStream, build, address_matches, Drain, drain_loop, drain_messages, push_bytes, push,
  finish, interpret, interpret_for, interpret_as, is_whole,
}

ran_IsSome :
    (d : Drain) {out : List ModbusRtuMessage} {t : ModbusRtuStream} → d ≡ some (out, t) → IsSome d
ran_IsSome none e = absurd (cc)
ran_IsSome (some r) e = tt

drain_messages_returns : (at_end : Bool) (s : ModbusRtuStream) → IsSome (drain_messages at_end s)
unfolding drain_messages
drain_messages_returns at_end s =
    let ran = drain_loop-Ran (suc (length s.buf)) at_end s (omega arith) in
    ran_IsSome (drain_loop (suc (length s.buf)) at_end s) (ran.2)

bind-IsSome {ℓ κ} :
    {A : Type ℓ} {B : Type κ} (o : Option A) (f : A → Option B)
    → IsSome o
    → ((a : A) → IsSome (f a))
    → IsSome (o >>= f)
bind-IsSome none f h k = absurd h
bind-IsSome (some a) f h k = k a

push_bytes_returns : (s : ModbusRtuStream) (bytes : List ℕ) → IsSome (push_bytes s bytes)
unfolding push_bytes
push_bytes_returns s [] = tt
push_bytes_returns s (b ∷ bs) =
    bind-IsSome _ _ (drain_messages_returns false (record s { buf = s.buf ++ (b ∷ bs) })) (λ r. tt)

push_returns : (s : ModbusRtuStream) (bytes : List ℕ) → IsSome (push s bytes)
unfolding push
push_returns s [] = tt
push_returns s (b ∷ bs) = push_bytes_returns _ (b ∷ bs)

finish_returns : (s : ModbusRtuStream) → IsSome (finish s)
unfolding finish
finish_returns s = bind-IsSome _ _ (drain_messages_returns true s) (λ r. tt)

pub whole-IsLayout :
    (raw : List ℕ) (c : Candidate)
    → find (is_whole raw) (candidates (at raw 1) raw) ≡ some c
    → IsLayout raw c × (c.len ≡ length raw)
whole-IsLayout raw c f =
    let found =
      find_found (IsLayout raw) (is_whole raw) (candidates (at raw 1) raw) (candidates-IsLayout raw)
        f in
    let tested = found.1 in (found.0, ground (arith, tested))

-- What is built of bytes that are as long as a layout of theirs.
pub whole-Built :
    (s : ModbusRtuStream) (raw : List ℕ) (c : Candidate) (crc : Bool)
    → find (is_whole raw) (candidates (at raw 1) raw) ≡ some c
    → (m : ModbusRtuMessage) × (t : ModbusRtuStream) × (build s raw c.direction crc ≡ some (m, t))
      × Built s raw crc m t
whole-Built s raw c crc f =
    let layout = whole-IsLayout raw c f in
    let same : take c.len raw ≡ raw = take-ge c.len raw (omega (arith, layout.1)) in
    let room = extent-take raw c layout.0 (omega (arith, layout.1)) in
    let total = build_total s (take c.len raw) c.direction crc room.0 room.1 in
    subst
      (λ x.
        (m : ModbusRtuMessage) × (t : ModbusRtuStream) × (build s x c.direction crc ≡ some (m, t))
        × Built s x crc m t)
      same total

interpret_as_returns :
    (s : ModbusRtuStream) (raw : List ℕ) (c : Candidate)
    → find (is_whole raw) (candidates (at raw 1) raw) ≡ some c
    → IsSome (interpret_as s (at raw 1) raw c)
unfolding interpret_as
interpret_as_returns s raw c f =
    elim (Bool-cases (not (crc16_modbus_valid raw) && not (is_plausible (at raw 1) raw c))) [
      | inl e ↦ rw e tt
      | inr e ↦
          let built = whole-Built s raw c (crc16_modbus_valid raw) f in rw (e) (rw (built.2) tt)
    ]

-- Bytes enough for a message: whether they are for the stream, and by which layout.
pub interpret_long :
    (s : ModbusRtuStream) (raw : List ℕ)
    → 4 ≤ length raw
    → interpret s raw ≡ (
        if address_matches s.device_address (at raw 0)
        then interpret_for s (at raw 1) raw
        else some (none, s))
unfolding interpret
interpret_long s raw h =
    let enough : ltb (length raw) 4 ≡ false = ground (arith, h) in
    rw (enough, get_elem?-at raw 0 (omega (arith, h)), get_elem?-at raw 1 (omega (arith, h))) refl

interpret_for_returns :
    (s : ModbusRtuStream) (raw : List ℕ) → IsSome (interpret_for s (at raw 1) raw)
unfolding interpret_for
interpret_for_returns s raw =
    elim (Option-cases (find (is_whole raw) (candidates (at raw 1) raw))) [
      | inl n ↦ rw (n, IsSome) tt
      | inr (c, f) ↦ rw (f, IsSome) (interpret_as_returns s raw c f)
    ]

interpret_returns : (s : ModbusRtuStream) (raw : List ℕ) → IsSome (interpret s raw)
unfolding interpret
interpret_returns s raw = elim (Bool-cases (ltb (length raw) 4)) [
  | inl few ↦ rw few tt
  | inr enough ↦
      subst IsSome (sym (interpret_long s raw (ground (arith, enough))))
        (elim (Bool-cases (address_matches s.device_address (at raw 0))) [
          | inl e ↦ rw e (interpret_for_returns s raw)
          | inr e ↦ rw e tt
        ])
]

-- Every operation returns, whatever bytes it is given: no index is out of bounds, and the loop ends
-- within one round more than the buffer has bytes.
pub operations_return :
    (s : ModbusRtuStream) (bytes : List ℕ)
    → IsSome (push s bytes)
      × IsSome (push_bytes s bytes)
      × IsSome (finish s)
      × IsSome (interpret s bytes)
operations_return s bytes =
    (push_returns s bytes, push_bytes_returns s bytes, finish_returns s, interpret_returns s bytes)
