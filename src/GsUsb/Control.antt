-- ===== src/GsUsb/Control.antt =====
-- gs_usb.rs: the structures of the control transfers, each a run of little-endian words.
pub mod Laws
use wiretap_lib_rs.Base.{
  ℕ, ◌+◌, ◌*◌, min, bit_and, Bool, not, Option, none, some, List, [], ◌∷◌, ◌++◌, length, get_or,
  drop, ltb, ◌==◌, if◌then◌else◌, zero, suc,
}
use wiretap_lib_rs.Base.Bytes.{at, u32_to_le, u32_le_at}

-- The vendor requests and their numbers.
pub data Breq : Type 0 where
  host_format bittiming mode berr bt_const device_config timestamp identify get_user_id : Breq
  set_user_id data_bittiming bt_const_ext set_termination get_termination get_state : Breq

unfoldable pub breq_code : Breq → ℕ
breq_code host_format = 0
breq_code bittiming = 1
breq_code mode = 2
breq_code berr = 3
breq_code bt_const = 4
breq_code device_config = 5
breq_code timestamp = 6
breq_code identify = 7
breq_code get_user_id = 8
breq_code set_user_id = 9
breq_code data_bittiming = 10
breq_code bt_const_ext = 11
breq_code set_termination = 12
breq_code get_termination = 13
breq_code get_state = 14

abbrev pub feature_fd : ℕ
feature_fd = 0x100

-- The words from `at_byte` on, `n` of them.
unfoldable pub read_words : ℕ → ℕ → List ℕ → List ℕ
read_words zero at_byte bytes = []
read_words (suc n) at_byte bytes = u32_le_at bytes at_byte ∷ read_words n (at_byte + 4) bytes

unfoldable pub words : ℕ → List ℕ → Option (List ℕ)
unfolding read_words
words n bytes = if ltb (length bytes) (n * 4) then none else some (read_words n 0 bytes)

pub record DeviceConfig : Type 0 where
  pub icount : ℕ
  pub sw_version : ℕ
  pub hw_version : ℕ

unfoldable pub device_config_from_bytes : List ℕ → Option DeviceConfig
unfolding words
device_config_from_bytes bytes = elim (words 3 bytes) [
  | none ↦ none
  | some w ↦
      some (record { icount = at bytes 3; sw_version = get_or w 1 0; hw_version = get_or w 2 0 })
]

-- `saturating_add` on a `u8`.
unfoldable pub channels : DeviceConfig → ℕ
channels c = min (c.icount + 1) 255

pub record BittimingConstraints : Type 0 where
  pub tseg1_min : ℕ
  pub tseg1_max : ℕ
  pub tseg2_min : ℕ
  pub tseg2_max : ℕ
  pub sjw_max : ℕ
  pub brp_min : ℕ
  pub brp_max : ℕ
  pub brp_inc : ℕ

unfoldable pub constraints_from_words : List ℕ → BittimingConstraints
constraints_from_words w = record {
  tseg1_min = get_or w 0 0;
  tseg1_max = get_or w 1 0;
  tseg2_min = get_or w 2 0;
  tseg2_max = get_or w 3 0;
  sjw_max = get_or w 4 0;
  brp_min = get_or w 5 0;
  brp_max = get_or w 6 0;
  brp_inc = if get_or w 7 0 == 0 then 1 else get_or w 7 0;
}

pub record BtConst : Type 0 where
  pub feature : ℕ
  pub fclk_can : ℕ
  pub nominal : BittimingConstraints

unfoldable pub bt_const_from_bytes : List ℕ → Option BtConst
unfolding words constraints_from_words
bt_const_from_bytes bytes = elim (words 10 bytes) [
  | none ↦ none
  | some w ↦ some (record {
    feature = get_or w 0 0;
    fclk_can = get_or w 1 0;
    nominal = constraints_from_words (drop 2 w);
  })
]

unfoldable pub supports_fd : BtConst → Bool
supports_fd c = not (bit_and c.feature feature_fd == 0)

pub record BtConstExtended : Type 0 where
  pub feature : ℕ
  pub fclk_can : ℕ
  pub nominal : BittimingConstraints
  pub data_phase : BittimingConstraints

unfoldable pub bt_const_extended_from_bytes : List ℕ → Option BtConstExtended
unfolding words constraints_from_words
bt_const_extended_from_bytes bytes = elim (words 18 bytes) [
  | none ↦ none
  | some w ↦ some (record {
    feature = get_or w 0 0;
    fclk_can = get_or w 1 0;
    nominal = constraints_from_words (drop 2 w);
    data_phase = constraints_from_words (drop 10 w);
  })
]

pub record Bittiming : Type 0 where
  pub prop_seg : ℕ
  pub phase_seg1 : ℕ
  pub phase_seg2 : ℕ
  pub sjw : ℕ
  pub brp : ℕ

unfoldable pub bittiming_to_bytes : Bittiming → List ℕ
bittiming_to_bytes t =
    u32_to_le t.prop_seg
    ++ (u32_to_le t.phase_seg1 ++ (u32_to_le t.phase_seg2 ++ (u32_to_le t.sjw ++ u32_to_le t.brp)))

pub record Mode : Type 0 where
  pub mode : ℕ
  pub flags : ℕ

abbrev pub mode_reset : Mode
mode_reset = record { mode = 0; flags = 0 }

unfoldable pub mode_start : ℕ → Mode
mode_start flags = record { mode = 1; flags = flags }

unfoldable pub mode_to_bytes : Mode → List ℕ
mode_to_bytes m = u32_to_le m.mode ++ u32_to_le m.flags
