-- ===== src/Checksum/Frame.antt =====
-- frame.rs: a checksum in a frame, at offsets that count from either end.
use wiretap_lib_rs.Base.{
  ℕ, suc, ◌+◌, ◌-◌, ◌*◌, min, Bool, ◌||◌, Option, none, some, List, length, take, drop, ltb, leb,
  ◌==◌, if◌then◌else◌,
}
use wiretap_lib_rs.Base.Bytes.{at}
use wiretap_lib_rs.Base.Int.{ℤ, pos, negsuc}
use wiretap_lib_rs.Checksum.{ChecksumAlgorithm, calculate_checksum_simple}

unfoldable pub resolve_byte_index : ℤ → ℕ → ℕ
resolve_byte_index (pos index) frame_length = index
resolve_byte_index (negsuc index) frame_length = frame_length - suc index

unfoldable pub calculated_range : ℕ → ℤ → ℕ → ℤ → ℤ → Option (ℕ × ℕ)
calculated_range frame_length position byte_length calc_start_byte calc_end_byte =
    if ltb frame_length (resolve_byte_index position frame_length + byte_length)
    then none
    else (let start = min (resolve_byte_index calc_start_byte frame_length) frame_length in
        let end = min (resolve_byte_index calc_end_byte frame_length) frame_length in
        if ltb start end then some (start, end) else none)

pub record ChecksumValidationResult : Type 0 where
  pub extracted : ℕ
  pub calculated : ℕ
  pub valid : Bool

unfoldable pub calculate_checksum : ChecksumAlgorithm → List ℕ → ℤ → ℤ → ℕ
calculate_checksum algorithm payload calc_start_byte calc_end_byte =
    let len = length payload in
    let start = min (resolve_byte_index calc_start_byte len) len in
    let end = min (resolve_byte_index calc_end_byte len) len in
    if leb end start
    then 0
    else calculate_checksum_simple algorithm (take (end - start) (drop start payload))

unfoldable pub extract_checksum : List ℕ → ℤ → ℕ → Bool → ℕ
extract_checksum payload start_byte byte_length big_endian =
    let len = length payload in
    let start = resolve_byte_index start_byte len in
    if byte_length == 0 || ltb len (start + byte_length)
    then 0
    else if byte_length == 1
    then at payload start
    else if big_endian
    then at payload start * 256 + at payload (start + 1)
    else at payload start + at payload (start + 1) * 256

unfoldable pub validate_checksum :
    ChecksumAlgorithm → List ℕ → ℤ → ℕ → Bool → ℤ → ℤ → ChecksumValidationResult
validate_checksum algorithm payload start_byte byte_length big_endian calc_start_byte
      calc_end_byte =
    let extracted = extract_checksum payload start_byte byte_length big_endian in
    let calculated = calculate_checksum algorithm payload calc_start_byte calc_end_byte in
    record { extracted = extracted; calculated = calculated; valid = extracted == calculated }
