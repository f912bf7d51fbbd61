-- ===== src/Dlc/Tests.antt =====
-- dlc.rs: the laws at single lengths and codes.
use wiretap_lib_rs.Base.{◌≤◌, ◌↔◌, true, arith}
use wiretap_lib_rs.Dlc.{dlc_to_len, len_to_dlc}
use wiretap_lib_rs.Dlc.Laws.{len_to_dlc-least}

len_to_dlc-least_example : (9 ≤ dlc_to_len 9 true) ↔ (len_to_dlc 9 ≤ 9)
len_to_dlc-least_example = len_to_dlc-least 9 9 (omega arith) (omega arith)
