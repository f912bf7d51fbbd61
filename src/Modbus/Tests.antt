-- ===== src/Modbus/Tests.antt =====
-- modbus_rtu_stream.rs and modbus/protocol.rs: the theorems at a read of one register, and tests.
use wiretap_lib_rs.Base.{
  ℕ, ◌<◌, true, ◌≡◌, refl, Option, none, some, List, [], ◌∷◌, ◌++◌, arith, All, length,
}
use wiretap_lib_rs.Base.Bytes.{IsBytes}
use wiretap_lib_rs.Checksum.{crc16_modbus_checksum, crc16_modbus_valid}
use wiretap_lib_rs.Modbus.Protocol.{coil, holding, from_function_code, data_bytes}
use wiretap_lib_rs.Modbus.Rtu.{
  request, response, CrcPolicy, strict, lenient, ModbusRtuMessage, candidates, find, fields_of,
  resolve, is_plausible,
}
use wiretap_lib_rs.Modbus.Rtu.Bounds.{IsSome}
use wiretap_lib_rs.Modbus.Rtu.Stream.{
  ModbusRtuStream, push_bytes, push, finish, interpret, interpret_for, interpret_as, drain_messages,
  drain_loop, round, take_message, perform, choose, unvalidated, guess, waits, take_candidate,
  build, skip_to_address, from_address, address_matches, evict,
}
use wiretap_lib_rs.Modbus.Rtu.Messages.{
  IsFramed, push_bytes-IsFramed, InOrder, raws, push_bytes-InOrder,
}
use wiretap_lib_rs.Modbus.Rtu.Finished.{IsCut, finish-IsResidue}
use wiretap_lib_rs.Modbus.Rtu.Residue.{IsResidue, push_bytes-bounded}
use wiretap_lib_rs.Modbus.Rtu.Returns.{operations_return}
use wiretap_lib_rs.Modbus.Rtu.Policies.{push_bytes-strictly}
use wiretap_lib_rs.Modbus.Rtu.Interpret.{interpret-push}

abbrev device : Option ℕ
device = some 1

-- A stream that waits for a device's messages.
abbrev listening : CrcPolicy → ModbusRtuStream
listening policy = record {
  buf = [];
  device_address = device;
  policy = policy;
  pending_frames = 0;
  last_request = none;
}

-- It has seen the request below.
abbrev asked : CrcPolicy → ModbusRtuStream
asked policy = record {
  buf = [];
  device_address = device;
  policy = policy;
  pending_frames = 0;
  last_request = some (3, 0, 1);
}

abbrev ask_bytes : List ℕ
ask_bytes = 1 ∷ 3 ∷ 0 ∷ 0 ∷ 0 ∷ 1 ∷ 0x84 ∷ 0x0A ∷ []

abbrev ask : ModbusRtuMessage
ask = record {
  direction = request;
  device_address = 1;
  function = 3;
  start_register = some 0;
  quantity = some 1;
  registers = [];
  exception = none;
  raw = ask_bytes;
  crc_valid = true;
  frame_count = 1;
}

abbrev answer_bytes : List ℕ
answer_bytes = 1 ∷ 3 ∷ 2 ∷ 0 ∷ 42 ∷ 57 ∷ 155 ∷ []

asked_lem :
    (policy : CrcPolicy) → push_bytes (listening policy) ask_bytes ≡ some (ask ∷ [], asked policy)
unfolding push_bytes drain_messages drain_loop round take_message perform choose unvalidated guess
    waits take_candidate build skip_to_address from_address address_matches evict candidates find
    fields_of resolve crc16_modbus_valid crc16_modbus_checksum
asked_lem strict = refl
asked_lem lenient = refl

interpreted : interpret (listening strict) ask_bytes ≡ some (some ask, asked strict)
unfolding interpret interpret_for interpret_as build address_matches candidates find fields_of
    resolve crc16_modbus_valid crc16_modbus_checksum is_plausible
interpreted = refl

-- The answer takes its first register from the request.
answered :
    push_bytes (asked strict) (9 ∷ answer_bytes)
    ≡ some (
      record {
        direction = response;
        device_address = 1;
        function = 3;
        start_register = some 0;
        quantity = some 1;
        registers = 42 ∷ [];
        exception = none;
        raw = answer_bytes;
        crc_valid = true;
        frame_count = 1;
      }
          ∷ [],
      listening strict,
    )
unfolding push_bytes drain_messages drain_loop round take_message perform choose unvalidated guess
    waits take_candidate build skip_to_address from_address address_matches evict candidates find
    fields_of resolve crc16_modbus_valid crc16_modbus_checksum
answered = refl

operations_return_example :
    IsSome (push (listening strict) ask_bytes)
    × IsSome (push_bytes (listening strict) ask_bytes)
    × IsSome (finish (listening strict))
    × IsSome (interpret (listening strict) ask_bytes)
operations_return_example = operations_return (listening strict) ask_bytes

push_bytes-IsFramed_example : All (IsFramed device strict) (ask ∷ [])
push_bytes-IsFramed_example =
    push_bytes-IsFramed (listening strict) (asked strict) ask_bytes (ask ∷ []) (asked_lem strict)

push_bytes-InOrder_example : InOrder (raws (ask ∷ []) ++ []) ([] ++ ask_bytes)
push_bytes-InOrder_example =
    push_bytes-InOrder (listening strict) (asked strict) ask_bytes (ask ∷ []) (asked_lem strict)

push_bytes-bounded_example : IsBytes [] × (length {A = ℕ} [] < 264)
push_bytes-bounded_example =
    push_bytes-bounded (listening strict) (asked strict) ask_bytes (ask ∷ []) tt (omega arith)
      (omega arith) (asked_lem strict)

push_bytes-strictly_example :
    push_bytes (listening strict) ask_bytes ≡ some (ask ∷ [], asked strict)
push_bytes-strictly_example =
    push_bytes-strictly (listening lenient) (asked lenient) ask_bytes (ask ∷ []) refl
      (asked_lem lenient) (refl, tt)

interpret-push_example : push_bytes (listening strict) ask_bytes ≡ some (ask ∷ [], asked strict)
interpret-push_example =
    interpret-push (listening strict) (asked strict) ask_bytes ask refl interpreted refl

-- Half of an answer, with nothing to come.
abbrev half : List ℕ
half = 1 ∷ 3 ∷ 2 ∷ 0 ∷ 42 ∷ []

half_left : finish (record (listening strict) { buf = half }) ≡ some ([], half, listening strict)
unfolding finish drain_messages drain_loop round take_message perform choose unvalidated guess waits
    skip_to_address from_address address_matches candidates find
half_left = refl

finish-IsResidue_example :
    IsResidue strict half × IsCut device half [] half × (◌≡◌ {A = List ℕ} [] [])
finish-IsResidue_example =
    finish-IsResidue (record (listening strict) { buf = half }) (listening strict) [] half half_left

exception_bank : from_function_code 0x83 ≡ some holding
unfolding from_function_code
exception_bank = refl

coils_packed : data_bytes coil 17 ≡ 3
unfolding data_bytes
coils_packed = refl
