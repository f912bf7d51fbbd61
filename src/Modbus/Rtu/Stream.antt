-- ===== src/Modbus/Rtu/Stream.antt =====
-- modbus_rtu_stream.rs: the stream and its operations. `none` stands for a panic, or for a loop that
-- runs out of its fuel.
use wiretap_lib_rs.Base.{
  ℕ, zero, suc, ◌+◌, ◌-◌, ◌*◌, ◌%◌, ◌^◌, max, Bool, true, false, not, ◌&&◌, Option, none, some,
  List, [], ◌∷◌, ◌++◌, length, take, drop, get_elem?, of_bool, ltb, leb, ◌==◌, if◌then◌else◌, ◌>>=◌,
}
use wiretap_lib_rs.Checksum.{crc16_modbus_valid}
use wiretap_lib_rs.Modbus.Protocol.{max_rtu_len}
use wiretap_lib_rs.Modbus.Rtu.{
  Direction, CrcPolicy, strict, lenient, ModbusRtuMessage, Candidate, Request, candidates, find,
  is_plausible, fields_of, resolve, is_some_and,
}

abbrev pub max_buffer : ℕ
max_buffer = max_rtu_len * 2

pub record ModbusRtuStream : Type 0 where
  pub buf : List ℕ
  pub device_address : Option ℕ
  pub policy : CrcPolicy
  pub pending_frames : ℕ
  pub last_request : Option Request

pub data Step : Type 0 where
  message : ModbusRtuMessage → Step
  no_message : Step
  need_more : Step

unfoldable pub with_crc_policy : Option ℕ → CrcPolicy → ModbusRtuStream
with_crc_policy device_address policy = record {
  buf = [];
  device_address = device_address;
  policy = policy;
  pending_frames = 0;
  last_request = none;
}

unfoldable pub for_address : Option ℕ → ModbusRtuStream
for_address device_address = with_crc_policy device_address strict

unfoldable pub address_matches : Option ℕ → ℕ → Bool
address_matches none byte = leb 1 byte && leb byte 247
address_matches (some addr) byte = byte == addr

-- The bytes from the first that an address may be.
unfoldable pub from_address : Option ℕ → List ℕ → List ℕ
from_address address [] = []
from_address address (b ∷ bs) =
    if address_matches address b then b ∷ bs else from_address address bs

unfoldable pub skip_to_address : ModbusRtuStream → ModbusRtuStream
skip_to_address s = record s { buf = from_address s.device_address s.buf }

unfoldable pub build :
    ModbusRtuStream → List ℕ → Direction → Bool → Option (ModbusRtuMessage × ModbusRtuStream)
build s raw direction crc_valid = do
  device_address ← get_elem? raw 0
  function ← get_elem? raw 1
  read ← fields_of function direction raw s.last_request
  let fs = resolve function read
  some (
    record {
      direction = fs.direction;
      device_address = device_address;
      function = function;
      start_register = fs.start_register;
      quantity = fs.quantity;
      registers = fs.registers;
      exception = fs.exception;
      raw = raw;
      crc_valid = crc_valid;
      frame_count = max s.pending_frames 1;
    },
    record s { last_request = fs.last_request },
  )

-- `drain(..len)` panics past the end of the buffer.
unfoldable pub take_candidate : ModbusRtuStream → Candidate → Bool → Option (Step × ModbusRtuStream)
take_candidate s c crc_valid = if ltb (length s.buf) c.len then none else (do
  built ← build (record s { buf = drop c.len s.buf }) (take c.len s.buf) c.direction crc_valid
  some (message built.0, built.1))

-- What the head of a buffer allows: a candidate to consume, nothing, or a wait. A read of the
-- buffer out of its range is a panic.
pub data Choice : Type 0 where
  consume : Candidate → Bool → Choice
  nothing : Choice
  wait : Choice
  panics : Choice

abbrev pub fits_valid : List ℕ → Candidate → Bool
fits_valid buf c = leb c.len (length buf) && crc16_modbus_valid (take c.len buf)

abbrev pub fits_plausible : ℕ → List ℕ → Candidate → Bool
fits_plausible func buf c = leb c.len (length buf) && is_plausible func buf c

unfoldable pub waits : ℕ → Bool → List ℕ → Bool
waits func at_end buf =
    not at_end
    && is_some_and (find (is_plausible func buf) (candidates func buf))
        (λ c. ltb (length buf) c.len)

unfoldable pub guess : ℕ → CrcPolicy → List ℕ → Choice
guess func strict buf = nothing
guess func lenient buf = elim (find (fits_plausible func buf) (candidates func buf)) [
  | none ↦ nothing
  | some c ↦ consume c false
]

unfoldable pub unvalidated : ℕ → CrcPolicy → Bool → List ℕ → Choice
unvalidated func policy at_end buf = if waits func at_end buf then wait else guess func policy buf

unfoldable pub choose : CrcPolicy → Bool → List ℕ → Choice
choose policy at_end buf = if ltb (length buf) 4 then wait else elim (get_elem? buf 1) [
  | none ↦ panics
  | some func ↦ elim (find (fits_valid buf) (candidates func buf)) [
    | some c ↦ consume c true
    | none ↦ unvalidated func policy at_end buf
  ]
]

unfoldable pub perform : ModbusRtuStream → Choice → Option (Step × ModbusRtuStream)
perform s (consume c crc_valid) = take_candidate s c crc_valid
perform s nothing = some (no_message, s)
perform s wait = some (need_more, s)
perform s panics = none

unfoldable pub take_message : ModbusRtuStream → Bool → Option (Step × ModbusRtuStream)
take_message s at_end = perform s (choose s.policy at_end s.buf)

abbrev pub Drain : Type 0
Drain = Option (List ModbusRtuMessage × ModbusRtuStream)

abbrev pub is_empty : List ℕ → Bool
is_empty [] = true
is_empty (b ∷ bs) = false

abbrev pub put_out : ModbusRtuMessage → Drain → Drain
put_out msg none = none
put_out msg (some (out, s)) = some (msg ∷ out, s)

-- A round of the loop behind `take_message`; `again` is the loop.
unfoldable pub round : (ModbusRtuStream → Drain) → Bool → Option (Step × ModbusRtuStream) → Drain
round again at_end none = none
round again at_end (some (message msg, s)) =
    put_out msg (again (record s { pending_frames = of_bool (not (is_empty s.buf)) }))
round again at_end (some (no_message, s)) = elim at_end [
  | true ↦ some ([], s)
  | false ↦ again (record s { buf = drop 1 s.buf })
]
round again at_end (some (need_more, s)) = some ([], s)

unfoldable pub drain_loop : ℕ → Bool → ModbusRtuStream → Drain
drain_loop zero at_end s = none
drain_loop (suc fuel) at_end s =
    round (drain_loop fuel at_end) at_end (take_message (skip_to_address s) at_end)

-- Each round but the last takes a byte off the buffer.
unfoldable pub drain_messages : Bool → ModbusRtuStream → Drain
drain_messages at_end s = drain_loop (suc (length s.buf)) at_end s

unfoldable pub evict : ModbusRtuStream → ModbusRtuStream
evict s =
    if ltb max_buffer (length s.buf)
    then record s { buf = drop (length s.buf - max_buffer) s.buf }
    else s

unfoldable pub push_bytes : ModbusRtuStream → List ℕ → Drain
push_bytes s bytes = if is_empty bytes then some ([], s) else (do
  drained ← drain_messages false (record s { buf = s.buf ++ bytes })
  some (drained.0, evict drained.1))

unfoldable pub push : ModbusRtuStream → List ℕ → Drain
push s bytes =
    if is_empty bytes
    then some ([], s)
    else push_bytes (record s { pending_frames = (s.pending_frames + 1) % 2 ^ 32 }) bytes

unfoldable pub finish : ModbusRtuStream → Option (List ModbusRtuMessage × List ℕ × ModbusRtuStream)
finish s = do
  drained ← drain_messages true s
  some (drained.0, drained.1.buf, record drained.1 { pending_frames = 0; buf = [] })

abbrev pub is_whole : List ℕ → Candidate → Bool
is_whole raw c = c.len == length raw

-- A message of a layout that is as long as the bytes.
unfoldable pub interpret_as :
    ModbusRtuStream → ℕ → List ℕ → Candidate → Option (Option ModbusRtuMessage × ModbusRtuStream)
interpret_as s func raw c =
    if not (crc16_modbus_valid raw) && not (is_plausible func raw c)
    then some (none, s)
    else (do built ← build s raw c.direction (crc16_modbus_valid raw); some (some built.0, built.1))

-- The layout that is as long as the bytes, if there is one.
unfoldable pub interpret_for :
    ModbusRtuStream → ℕ → List ℕ → Option (Option ModbusRtuMessage × ModbusRtuStream)
interpret_for s func raw = elim (find (is_whole raw) (candidates func raw)) [
  | none ↦ some (none, s)
  | some c ↦ interpret_as s func raw c
]

-- The message, if the bytes are one, and the stream.
unfoldable pub interpret :
    ModbusRtuStream → List ℕ → Option (Option ModbusRtuMessage × ModbusRtuStream)
interpret s raw = if ltb (length raw) 4 then some (none, s) else (do
  address ← get_elem? raw 0
  func ← get_elem? raw 1
  if address_matches s.device_address address then interpret_for s func raw else some (none, s))
