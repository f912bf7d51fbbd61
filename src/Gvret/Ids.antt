-- ===== src/Gvret/Ids.antt =====
-- gvret.rs: opcodes, and the id word with its extended flag.
use wiretap_lib_rs.Base.{
  ℕ, ◌+◌, ◌%◌, bit_and, bit_or, Bool, true, false, not, ◌≡◌, arith, List, [], ◌∷◌, ◌==◌,
  if◌then◌else◌,
}
use wiretap_lib_rs.Base.Bytes.{IsU32}
use wiretap_lib_rs.ArbId.{arb_mask_ext, arb_mask_std}
use wiretap_lib_rs.ArbId.Laws.{mask_ext, mask_std, bit_31, set_31}

abbrev pub gvret_eff_bit : ℕ
gvret_eff_bit = 0x8000_0000

abbrev pub sync : List ℕ
sync = 0xE7 ∷ 0xE7 ∷ []

abbrev pub cmd : ℕ
cmd = 0xF1

abbrev pub op_frame : ℕ
op_frame = 0x00

abbrev pub op_timebase : ℕ
op_timebase = 0x01

abbrev pub op_canbus_params : ℕ
op_canbus_params = 0x06

abbrev pub op_dev_info : ℕ
op_dev_info = 0x07

abbrev pub op_keepalive : ℕ
op_keepalive = 0x09

abbrev pub op_num_buses : ℕ
op_num_buses = 0x0C

abbrev pub req_timebase : List ℕ
req_timebase = cmd ∷ op_timebase ∷ []

abbrev pub req_canbus_params : List ℕ
req_canbus_params = cmd ∷ op_canbus_params ∷ []

abbrev pub req_dev_info : List ℕ
req_dev_info = cmd ∷ op_dev_info ∷ []

abbrev pub req_num_buses : List ℕ
req_num_buses = cmd ∷ op_num_buses ∷ []

unfoldable pub split_gvret_id : ℕ → ℕ × Bool
split_gvret_id raw =
    let extended = not (bit_and raw gvret_eff_bit == 0) in
    (bit_and raw (if extended then arb_mask_ext else arb_mask_std), extended)

unfoldable pub make_gvret_id : ℕ → Bool → ℕ
make_gvret_id arb_id extended =
    if extended
    then bit_or (bit_and arb_id arb_mask_ext) gvret_eff_bit
    else bit_and arb_id arb_mask_std

-- The width of an id: 29 bits if it is extended, else 11.
abbrev pub id_span : Bool → ℕ
id_span extended = if extended then 0x2000_0000 else 0x800

make_as_sum :
    (id : ℕ) (extended : Bool)
    → make_gvret_id id extended ≡ (if extended then 0x8000_0000 + id % 0x2000_0000 else id % 0x800)
unfolding make_gvret_id
make_as_sum id true = rw (mask_ext id) (set_31 (id % 0x2000_0000) (omega arith))
make_as_sum id false = mask_std id

pub make_gvret_id-IsU32 : (id : ℕ) (extended : Bool) → IsU32 (make_gvret_id id extended)
make_gvret_id-IsU32 id true = omega (arith, make_as_sum id true)
make_gvret_id-IsU32 id false = omega (arith, make_as_sum id false)

-- An id word that was made splits back into the id, cut to the width of its kind, and the flag.
pub split-make_gvret_id :
    (id : ℕ) (extended : Bool)
    → split_gvret_id (make_gvret_id id extended) ≡ (id % id_span extended, extended)
unfolding split_gvret_id
split-make_gvret_id id true =
    ground
      (arith, make_as_sum id true, bit_31 (make_gvret_id id true), mask_ext (make_gvret_id id true))
split-make_gvret_id id false = ground (
  arith,
  make_as_sum id false,
  bit_31 (make_gvret_id id false),
  mask_std (make_gvret_id id false),
)
