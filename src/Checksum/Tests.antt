-- ===== src/Checksum/Tests.antt =====
-- algorithms.rs, frame.rs, spec.rs and sampling.rs on small inputs.
use mathlib.Core.List.{reverse}
use mathlib.Core.List.Permᴰ
use wiretap_lib_rs.Base.{true, false, Bool}
use wiretap_lib_rs.Base.Int.{pos, negsuc}
use wiretap_lib_rs.Checksum.{sum8, crc16_modbus, calculate_checksum_simple}
use wiretap_lib_rs.Checksum.Frame.{resolve_byte_index, extract_checksum}
use wiretap_lib_rs.Checksum.Spec.{
  ChecksumSpec, sweep_specs, sort_by_key, insert, sweep_groups, sweep_members, result_of, tally,
  calculated, group, push_member, same_key,
}
use wiretap_lib_rs.Checksum.Spec.Measure.{each}
use wiretap_lib_rs.Checksum.Spec.Sweep.{sweep_specs-each}
use wiretap_lib_rs.Base.{
  ℕ, true, ◌+◌, ◌*◌, ◌≡◌, ◌≤◌, All, ◌↔◌, refl, List, [], ◌∷◌, ◌++◌, length, arith,
}
use wiretap_lib_rs.Checksum.{
  crc16_modbus_checksum, crc16_modbus_valid, crc16_parameterised, crc8_parameterised, crc8_checksum,
  crc8_step, crc16_step, reflect8, shift_up, shift_out, crc8_maxim_checksum, crc16_ccitt_checksum,
  crc16_modbus_step, crc16_modbus_table, table_from,
}
use wiretap_lib_rs.Checksum.Sampling.{
  hamming_distance, abs_diff, strided_samples, div_ceil, deduplicate, diverse_samples, max_pool,
  farthest,
}
use wiretap_lib_rs.Checksum.Sampling.Distinct.{IsDistinct}
use wiretap_lib_rs.Checksum.Sampling.Drawn.{IsSample, diverse_samples-IsDistinct}
use wiretap_lib_rs.Checksum.Crc.{crc16_modbus_checksum-crc16_parameterised, crc16_modbus_valid_iff}

abbrev digits : List ℕ
digits = 0x31 ∷ 0x32 ∷ 0x33 ∷ 0x34 ∷ 0x35 ∷ 0x36 ∷ 0x37 ∷ 0x38 ∷ 0x39 ∷ []

crc8_check : crc8_checksum digits ≡ 0xF4
unfolding crc8_checksum crc8_parameterised crc8_step shift_up
crc8_check = refl

crc8_maxim_check : crc8_maxim_checksum digits ≡ 0xA1
unfolding crc8_maxim_checksum crc8_parameterised crc8_step shift_out reflect8
crc8_maxim_check = refl

crc16_ccitt_check : crc16_ccitt_checksum digits ≡ 0x29B1
unfolding crc16_ccitt_checksum crc16_parameterised crc16_step shift_up
crc16_ccitt_check = refl

crc16_modbus_check : crc16_modbus_checksum digits ≡ 0x4B37
unfolding crc16_modbus_checksum crc16_modbus_step crc16_modbus_table table_from shift_out
crc16_modbus_check = refl

abbrev short_request : List ℕ
short_request = 0x11 ∷ 0x03 ∷ []

crc16_modbus_checksum-crc16_parameterised_example :
    crc16_modbus_checksum short_request
    ≡ crc16_parameterised short_request 0x8005 0xFFFF 0x0000 true true
crc16_modbus_checksum-crc16_parameterised_example =
    crc16_modbus_checksum-crc16_parameterised short_request (omega arith, (omega arith, tt))

crc16_modbus_valid_iff_example :
    (crc16_modbus_valid (short_request ++ (0xC1 ∷ 0x40 ∷ [])) ≡ true)
    ↔ ((2 ≤ length short_request) × (crc16_modbus_checksum short_request ≡ 0xC1 + 0x40 * 256))
crc16_modbus_valid_iff_example = crc16_modbus_valid_iff short_request 0xC1 0x40

-- Two trailing bytes that hold the Modbus CRC, in either order of bytes.
abbrev crc_spec : Bool → ChecksumSpec
crc_spec big_endian = record {
  algorithm = crc16_modbus;
  position = negsuc 1;
  byte_length = 2;
  big_endian = big_endian;
  calc_start_byte = pos 0;
  calc_end_byte = negsuc 1;
}

abbrev sum_spec : ChecksumSpec
sum_spec = record {
  algorithm = sum8;
  position = negsuc 0;
  byte_length = 1;
  big_endian = true;
  calc_start_byte = pos 0;
  calc_end_byte = negsuc 0;
}

abbrev captured : List (List ℕ)
captured =
    (1 ∷ 3 ∷ 0 ∷ 0 ∷ 0 ∷ 1 ∷ 0x84 ∷ 0x0A ∷ [])
    ∷ (7 ∷ [])
    ∷ (1 ∷ 3 ∷ 2 ∷ 0 ∷ 42 ∷ 57 ∷ 155 ∷ [])
    ∷ []

sweep_specs-each_example :
    sweep_specs reverse captured (crc_spec true ∷ sum_spec ∷ crc_spec false ∷ [])
    ≡ each captured 0 (crc_spec true ∷ sum_spec ∷ crc_spec false ∷ [])
sweep_specs-each_example =
    sweep_specs-each reverse captured (crc_spec true ∷ sum_spec ∷ crc_spec false ∷ []) Permᴰ.reverse

-- The frame of one byte is no evidence, and the low byte comes first.
swept :
    sweep_specs reverse captured (crc_spec true ∷ crc_spec false ∷ [])
    ≡ record { spec_index = 0; match_count = 0; total_count = 2 }
      ∷ record { spec_index = 1; match_count = 2; total_count = 2 }
      ∷ []
unfolding sweep_specs sort_by_key insert sweep_groups sweep_members result_of tally calculated group
    push_member same_key extract_checksum resolve_byte_index calculate_checksum_simple
    crc16_modbus_checksum
swept = refl

from_the_end : resolve_byte_index (negsuc 10) 10 ≡ 0
unfolding resolve_byte_index
from_the_end = refl

-- Two payloads that alternate, an empty frame, and one far from both.
abbrev alternating : List (List ℕ)
alternating =
    (0 ∷ 0 ∷ []) ∷ (1 ∷ 0 ∷ []) ∷ (0 ∷ 0 ∷ []) ∷ (1 ∷ 0 ∷ []) ∷ [] ∷ (0xFF ∷ 0xFF ∷ []) ∷ []

longer_frame_differs : hamming_distance (0 ∷ []) (0 ∷ 0 ∷ []) ≡ 8
unfolding hamming_distance abs_diff
longer_frame_differs = refl

duplicates_dropped : deduplicate alternating ≡ (0 ∷ 0 ∷ []) ∷ (1 ∷ 0 ∷ []) ∷ (0xFF ∷ 0xFF ∷ []) ∷ []
unfolding deduplicate
duplicates_dropped = refl

every_third_kept : strided_samples alternating 2 ≡ (0 ∷ 0 ∷ []) ∷ (1 ∷ 0 ∷ []) ∷ []
unfolding strided_samples div_ceil
every_third_kept = refl

distant_preferred : diverse_samples alternating 2 ≡ (0 ∷ 0 ∷ []) ∷ (0xFF ∷ 0xFF ∷ []) ∷ []
unfolding diverse_samples deduplicate strided_samples div_ceil max_pool farthest hamming_distance
    abs_diff
distant_preferred = refl

diverse_samples-IsDistinct_example :
    All (IsSample alternating) (diverse_samples alternating 2)
    × IsDistinct (diverse_samples alternating 2)
    × (length (diverse_samples alternating 2) ≤ 2)
diverse_samples-IsDistinct_example = diverse_samples-IsDistinct alternating 2 (omega arith)
