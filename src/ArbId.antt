-- ===== src/ArbId.antt =====
-- crates/wiretap-protocol/src/lib.rs: the arbitration id masks that every protocol shares, and
-- crates/wiretap-protocol/src/ingest.rs: the id flags of the ingest protocol.
pub mod Laws
use wiretap_lib_rs.Base.{ℕ}

abbrev pub arb_mask_ext : ℕ
arb_mask_ext = 0x1FFF_FFFF

abbrev pub arb_mask_std : ℕ
arb_mask_std = 0x7FF

-- The ingest protocol's flags beside the id.
abbrev pub id_extended : ℕ
id_extended = 0x2000_0000

abbrev pub id_fd : ℕ
id_fd = 0x4000_0000

abbrev pub id_tx : ℕ
id_tx = 0x8000_0000

abbrev pub id_arb_mask : ℕ
id_arb_mask = arb_mask_ext
