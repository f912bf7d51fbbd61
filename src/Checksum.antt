-- ===== src/Checksum.antt =====
-- crates/wiretap-checksum/src/algorithms.rs: the checksum algorithms, bytes in and a value out.
pub mod Crc
pub mod Frame
pub mod Sampling
pub mod Spec
mod Tests
use wiretap_lib_rs.Base.{
  ℕ, zero, suc, ◌+◌, ◌-◌, ◌*◌, ◌/◌, ◌%◌, ◌^◌, bit_and, bit_xor, Bool, true, false, not, List, [],
  ◌∷◌, length, take, drop, ltb, ◌==◌, if◌then◌else◌,
}
use wiretap_lib_rs.Base.Bytes.{at, u16_from_le}

pub data ChecksumAlgorithm : Type 0 where
  xor sum8 crc8 crc8_sae_j1850 crc8_autosar crc8_maxim crc8_cdma2000 crc8_dvb_s2 crc8_nissan
        crc16_modbus crc16_ccitt :
      ChecksumAlgorithm

abbrev pub all_algorithms : List ChecksumAlgorithm
all_algorithms =
    xor ∷ sum8 ∷ crc8 ∷ crc8_sae_j1850 ∷ crc8_autosar ∷ crc8_maxim ∷ crc8_cdma2000 ∷ crc8_dvb_s2
    ∷ crc8_nissan ∷ crc16_modbus ∷ crc16_ccitt ∷ []

unfoldable pub output_bytes : ChecksumAlgorithm → ℕ
output_bytes xor = 1
output_bytes sum8 = 1
output_bytes crc8 = 1
output_bytes crc8_sae_j1850 = 1
output_bytes crc8_autosar = 1
output_bytes crc8_maxim = 1
output_bytes crc8_cdma2000 = 1
output_bytes crc8_dvb_s2 = 1
output_bytes crc8_nissan = 1
output_bytes crc16_modbus = 2
output_bytes crc16_ccitt = 2

-- `reverse_bits` on `w` bits.
abbrev pub reverse_bits : ℕ → ℕ → ℕ
reverse_bits zero value = 0
reverse_bits (suc w) value = value % 2 * 2 ^ w + reverse_bits w (value / 2)

unfoldable pub reflect8 : ℕ → ℕ
reflect8 value = reverse_bits 8 value

unfoldable pub reflect16 : ℕ → ℕ
reflect16 value = reverse_bits 16 value

-- One bit, least significant first.
unfoldable pub shift_out : ℕ → ℕ → ℕ
shift_out reflected_poly crc =
    if not (bit_and crc 1 == 0) then bit_xor (crc / 2) reflected_poly else crc / 2

-- One bit of `w`, most significant first.
unfoldable pub shift_up : ℕ → ℕ → ℕ → ℕ
shift_up w polynomial crc =
    if not (bit_and crc (2 ^ (w - 1)) == 0)
    then bit_xor (crc * 2 % 2 ^ w) polynomial
    else crc * 2 % 2 ^ w

abbrev pub repeat : ℕ → (ℕ → ℕ) → ℕ → ℕ
repeat zero f crc = crc
repeat (suc n) f crc = repeat n f (f crc)

-- A fold over the bytes.
abbrev pub over : (ℕ → ℕ → ℕ) → ℕ → List ℕ → ℕ
over step crc [] = crc
over step crc (byte ∷ bytes) = over step (step crc byte) bytes

unfoldable pub crc8_step : ℕ → Bool → ℕ → ℕ → ℕ
unfolding reflect8 shift_out shift_up
crc8_step polynomial reflect crc byte =
    if reflect
    then repeat 8 (shift_out (reflect8 polynomial)) (bit_xor crc byte)
    else repeat 8 (shift_up 8 polynomial) (bit_xor crc byte)

unfoldable pub crc8_parameterised : List ℕ → ℕ → ℕ → ℕ → Bool → ℕ
unfolding crc8_step
crc8_parameterised payload polynomial init xor_out reflect =
    bit_xor (over (crc8_step polynomial reflect) init payload) xor_out

unfoldable pub crc16_step : ℕ → Bool → ℕ → ℕ → ℕ
unfolding reflect16 shift_out shift_up
crc16_step polynomial reflect_in crc byte =
    if reflect_in
    then repeat 8 (shift_out (reflect16 polynomial)) (bit_xor crc byte)
    else repeat 8 (shift_up 16 polynomial) (bit_xor crc (byte * 256))

abbrev same_flag : Bool → Bool → Bool
same_flag true b = b
same_flag false b = not b

unfoldable pub crc16_parameterised : List ℕ → ℕ → ℕ → ℕ → Bool → Bool → ℕ
unfolding crc16_step
crc16_parameterised payload polynomial init xor_out reflect_in reflect_out =
    let crc = over (crc16_step polynomial reflect_in) init payload in
    bit_xor (if same_flag reflect_out reflect_in then crc else reflect16 crc) xor_out

unfoldable pub xor_checksum : List ℕ → ℕ
xor_checksum payload = over bit_xor 0 payload

unfoldable pub sum8_checksum : List ℕ → ℕ
sum8_checksum payload = over (λ acc byte. (acc + byte) % 256) 0 payload

unfoldable pub crc8_checksum : List ℕ → ℕ
crc8_checksum payload = crc8_parameterised payload 0x07 0x00 0x00 false

unfoldable pub crc8_sae_j1850_checksum : List ℕ → ℕ
crc8_sae_j1850_checksum payload = crc8_parameterised payload 0x1D 0xFF 0xFF false

unfoldable pub crc8_autosar_checksum : List ℕ → ℕ
crc8_autosar_checksum payload = crc8_parameterised payload 0x2F 0xFF 0xFF false

unfoldable pub crc8_maxim_checksum : List ℕ → ℕ
crc8_maxim_checksum payload = crc8_parameterised payload 0x31 0x00 0x00 true

unfoldable pub crc8_cdma2000_checksum : List ℕ → ℕ
crc8_cdma2000_checksum payload = crc8_parameterised payload 0x9B 0xFF 0x00 false

unfoldable pub crc8_dvb_s2_checksum : List ℕ → ℕ
crc8_dvb_s2_checksum payload = crc8_parameterised payload 0xD5 0x00 0x00 false

unfoldable pub crc8_nissan_checksum : List ℕ → ℕ
crc8_nissan_checksum payload = crc8_parameterised payload 0x85 0x00 0x00 false

abbrev pub crc16_modbus_poly_reflected : ℕ
crc16_modbus_poly_reflected = 0xA001

-- The table's entries from `byte` on, `n` of them.
unfoldable pub table_from : ℕ → ℕ → List ℕ
unfolding shift_out
table_from byte zero = []
table_from byte (suc n) =
    repeat 8 (shift_out crc16_modbus_poly_reflected) byte ∷ table_from (byte + 1) n

unfoldable pub crc16_modbus_table : List ℕ
unfolding table_from
crc16_modbus_table = table_from 0 256

unfoldable pub crc16_modbus_step : ℕ → ℕ → ℕ
unfolding crc16_modbus_table
crc16_modbus_step crc byte = bit_xor (crc / 256) (at crc16_modbus_table (bit_xor crc byte % 256))

unfoldable pub crc16_modbus_checksum : List ℕ → ℕ
unfolding crc16_modbus_step
crc16_modbus_checksum payload = over crc16_modbus_step 0xFFFF payload

unfoldable pub crc16_modbus_valid : List ℕ → Bool
crc16_modbus_valid message =
    if ltb (length message) 4
    then false
    else (let body = take (length message - 2) message in
        let crc = drop (length message - 2) message in
        crc16_modbus_checksum body == u16_from_le (at crc 0) (at crc 1))

unfoldable pub crc16_ccitt_checksum : List ℕ → ℕ
crc16_ccitt_checksum payload = crc16_parameterised payload 0x1021 0xFFFF 0x0000 false false

unfoldable pub calculate_checksum_simple : ChecksumAlgorithm → List ℕ → ℕ
calculate_checksum_simple xor payload = xor_checksum payload
calculate_checksum_simple sum8 payload = sum8_checksum payload
calculate_checksum_simple crc8 payload = crc8_checksum payload
calculate_checksum_simple crc8_sae_j1850 payload = crc8_sae_j1850_checksum payload
calculate_checksum_simple crc8_autosar payload = crc8_autosar_checksum payload
calculate_checksum_simple crc8_maxim payload = crc8_maxim_checksum payload
calculate_checksum_simple crc8_cdma2000 payload = crc8_cdma2000_checksum payload
calculate_checksum_simple crc8_dvb_s2 payload = crc8_dvb_s2_checksum payload
calculate_checksum_simple crc8_nissan payload = crc8_nissan_checksum payload
calculate_checksum_simple crc16_modbus payload = crc16_modbus_checksum payload
calculate_checksum_simple crc16_ccitt payload = crc16_ccitt_checksum payload
