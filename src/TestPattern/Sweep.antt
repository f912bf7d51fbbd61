-- ===== src/TestPattern/Sweep.antt =====
-- testpattern.rs: the sweep ids, the payload each length code names, and the echo's comparison.
pub mod Laws
use wiretap_lib_rs.Base.{
  ℕ, zero, suc, ◌+◌, ◌-◌, ◌*◌, ◌%◌, bit_and, bit_xor, Bool, true, false, ◌&&◌, ◌||◌, Option, none,
  some, List, [], ◌∷◌, ltb, leb, ◌==◌, if◌then◌else◌,
}
use wiretap_lib_rs.Dlc.{dlc_to_len}
use wiretap_lib_rs.TestPattern.Message.{id_base, id_status, id_extended_base}

abbrev pub sweep_request_base : ℕ
sweep_request_base = 0x7E0

abbrev pub sweep_echo_base : ℕ
sweep_echo_base = 0x7C0

-- The length code, and whether the id is an echo's.
unfoldable pub sweep_code : ℕ → Option (ℕ × Bool)
sweep_code arb_id =
    if leb sweep_request_base arb_id && ltb arb_id (sweep_request_base + 16)
    then some ((arb_id - sweep_request_base) % 256, false)
    else if leb sweep_echo_base arb_id && ltb arb_id (sweep_echo_base + 16)
    then some ((arb_id - sweep_echo_base) % 256, true)
    else none

unfoldable pub is_test_pattern_frame : ℕ → Bool
unfolding sweep_code
is_test_pattern_frame arb_id =
    (leb id_base arb_id && leb arb_id id_status)
    || ((leb id_extended_base arb_id && leb arb_id (id_extended_base + 7))
        || (elim (sweep_code arb_id) [ none ↦ false | some sweep ↦ true ]))

unfoldable pub sweep_byte : ℕ → ℕ → ℕ
sweep_byte code i = bit_xor (i % 256 * 0x1F % 256) (code * 0x55 % 256)

-- The bytes from position `i` on, `n` of them.
unfoldable pub sweep_bytes : ℕ → ℕ → ℕ → List ℕ
sweep_bytes code i zero = []
sweep_bytes code i (suc n) = sweep_byte code i ∷ sweep_bytes code (i + 1) n

unfoldable pub sweep_payload : ℕ → Bool → List ℕ
unfolding sweep_bytes
sweep_payload code fd = let code = bit_and code 0x0F in sweep_bytes code 0 (dlc_to_len code fd)

abbrev pub count_from : ℕ → ℕ → List ℕ
count_from i zero = []
count_from i (suc n) = i ∷ count_from (i + 1) n

unfoldable pub sweep_codes : Bool → List ℕ
sweep_codes fd = count_from 0 (suc (if fd then 15 else 8))

abbrev pub same_bytes : List ℕ → List ℕ → Bool
same_bytes [] [] = true
same_bytes [] (y ∷ ys) = false
same_bytes (x ∷ xs) [] = false
same_bytes (x ∷ xs) (y ∷ ys) = x == y && same_bytes xs ys

unfoldable pub sweep_echo_matches : ℕ → Bool → List ℕ → Bool
unfolding sweep_payload
sweep_echo_matches code fd echoed = same_bytes echoed (sweep_payload code fd)
