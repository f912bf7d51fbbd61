-- ===== src/Modbus/Protocol.antt =====
-- modbus/protocol.rs and model.rs: register banks, function codes, and what one request may ask for.
use wiretap_lib_rs.Base.{
  ℕ, ◌+◌, ◌*◌, ◌/◌, bit_and, Bool, true, false, ◌||◌, Option, none, some, ◌==◌, if◌then◌else◌,
}

pub data RegisterType : Type 0 where
  input holding coil discrete : RegisterType

abbrev pub max_rtu_len : ℕ
max_rtu_len = 256

abbrev pub max_data_bytes : ℕ
max_data_bytes = 250

abbrev pub max_registers_per_read : ℕ
max_registers_per_read = 125

abbrev pub max_coils_per_read : ℕ
max_coils_per_read = 2000

abbrev pub max_registers_per_write : ℕ
max_registers_per_write = 123

abbrev pub max_coils_per_write : ℕ
max_coils_per_write = 1968

unfoldable pub is_register_bank : RegisterType → Bool
is_register_bank input = true
is_register_bank holding = true
is_register_bank coil = false
is_register_bank discrete = false

unfoldable pub is_writable : RegisterType → Bool
is_writable holding = true
is_writable coil = true
is_writable input = false
is_writable discrete = false

unfoldable pub base_one_prefix : RegisterType → ℕ
base_one_prefix coil = 1
base_one_prefix discrete = 10001
base_one_prefix input = 30001
base_one_prefix holding = 40001

unfoldable pub from_function_code : ℕ → Option RegisterType
from_function_code function =
    let code = bit_and function 0x7F in
    if code == 0x01 || (code == 0x05 || code == 0x0F)
    then some coil
    else if code == 0x02
    then some discrete
    else if code == 0x03 || (code == 0x06 || code == 0x10)
    then some holding
    else if code == 0x04
    then some input
    else none

unfoldable pub read_function_code : RegisterType → ℕ
read_function_code coil = 0x01
read_function_code discrete = 0x02
read_function_code holding = 0x03
read_function_code input = 0x04

unfoldable pub max_per_read : RegisterType → ℕ
unfolding is_register_bank
max_per_read bank = if is_register_bank bank then max_registers_per_read else max_coils_per_read

unfoldable pub data_bytes : RegisterType → ℕ → ℕ
unfolding is_register_bank
data_bytes bank quantity = if is_register_bank bank then quantity * 2 else (quantity + 7) / 8

unfoldable pub max_per_write : RegisterType → Option ℕ
max_per_write holding = some max_registers_per_write
max_per_write coil = some max_coils_per_write
max_per_write input = none
max_per_write discrete = none
