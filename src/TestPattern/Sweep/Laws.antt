-- ===== src/TestPattern/Sweep/Laws.antt =====
-- testpattern.rs: sweep ids, payloads and echoes.
use wiretap_lib_rs.Base.{
  ℕ, zero, suc, ◌+◌, ◌<◌, bit_and, Bool, true, false, ◌||◌, not, ◌≡◌, refl, ap, ◌∙◌, sym, ◌↔◌, List,
  [], ◌∷◌, arith, ◌==◌, if◌then◌else◌, length, none, some,
}
use wiretap_lib_rs.Base.Tables.{holds_below, holds_at}
use wiretap_lib_rs.Dlc.{dlc_to_len}
use wiretap_lib_rs.TestPattern.Message.{Message, arb_id, extended_id}
use wiretap_lib_rs.TestPattern.Sweep.{
  sweep_code, is_test_pattern_frame, sweep_byte, sweep_bytes, sweep_payload, same_bytes,
  sweep_echo_matches, sweep_request_base, sweep_echo_base,
}

length-sweep_bytes : (code i n : ℕ) → length (sweep_bytes code i n) ≡ n
unfolding sweep_bytes
length-sweep_bytes code i zero = refl
length-sweep_bytes code i (suc n) = ap suc (length-sweep_bytes code (i + 1) n)

pub length-sweep_payload :
    (code : ℕ) (fd : Bool) → length (sweep_payload code fd) ≡ dlc_to_len (bit_and code 15) fd
unfolding sweep_payload
length-sweep_payload code fd =
    length-sweep_bytes (bit_and code 15) 0 (dlc_to_len (bit_and code 15) fd)

same_bytes_iff : (xs ys : List ℕ) → (same_bytes xs ys ≡ true) ↔ (xs ≡ ys)
same_bytes_iff [] [] = ground arith
same_bytes_iff [] (y ∷ ys) = ground arith
same_bytes_iff (x ∷ xs) [] = ground arith
same_bytes_iff (x ∷ xs) (y ∷ ys) = ground (arith, same_bytes_iff xs ys)

payload_table :
    (fd : Bool)
    → holds_below 16 (λ c.
      holds_below 16 (λ d. c == d || not (same_bytes (sweep_payload c fd) (sweep_payload d fd))))
      ≡ true
unfolding holds_below sweep_payload dlc_to_len sweep_byte
payload_table false = refl
payload_table true = refl

sweep_payload-injective :
    (c d : ℕ) (fd : Bool) → c < 16 → d < 16 → sweep_payload c fd ≡ sweep_payload d fd → c ≡ d
sweep_payload-injective c d fd h k e = ground (
  arith,
  holds_at 16 _ (holds_at 16 _ (payload_table fd) c h) d k,
  same_bytes_iff (sweep_payload c fd) (sweep_payload d fd),
)

-- An echo that is right for one length code is right for no other.
pub sweep_echo_matches-one_code :
    (c d : ℕ) (fd : Bool) (echoed : List ℕ)
    → c < 16
    → d < 16
    → sweep_echo_matches c fd echoed ≡ true
    → sweep_echo_matches d fd echoed ≡ true
    → c ≡ d
unfolding sweep_echo_matches
sweep_echo_matches-one_code c d fd echoed h k e f = sweep_payload-injective c d fd h k (
    sym ((same_bytes_iff echoed (sweep_payload c fd)).0 e)
    ∙ (same_bytes_iff echoed (sweep_payload d fd)).0 f)

-- A sweep's request and echo ids carry the code, and no other id does.
pub sweep_code_names :
    (id : ℕ) (code : ℕ) (echo : Bool)
    → (sweep_code id ≡ some (code, echo))
      ↔ ((code < 16) × (id ≡ (if echo then sweep_echo_base else sweep_request_base) + code))
unfolding sweep_code
sweep_code_names id code false = (λ e. ground arith, λ h. ground arith)
sweep_code_names id code true = (λ e. ground arith, λ h. ground arith)

-- Every id of a framed message, standard or extended, belongs to the protocol and is no sweep's.
pub is_test_pattern_frame-arb_id :
    (msg : Message)
    → (is_test_pattern_frame (arb_id msg) ≡ true)
      × (is_test_pattern_frame (extended_id (arb_id msg)) ≡ true)
      × (sweep_code (arb_id msg) ≡ none)
      × (sweep_code (extended_id (arb_id msg)) ≡ none)
unfolding is_test_pattern_frame arb_id extended_id
is_test_pattern_frame-arb_id msg = (ground arith, ground arith, ground arith, ground arith)
