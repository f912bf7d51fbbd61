-- ===== src/Dlc.antt =====
-- crates/wiretap-protocol/src/dlc.rs: the data length code table and both directions across it.
pub mod Laws
mod Tests
use wiretap_lib_rs.Base.{ℕ, ◌+◌, ◌*◌, min, bit_and, Bool, Option, none, some, List, [], ◌∷◌}
use wiretap_lib_rs.Base.{leb, get_or, if◌then◌else◌}
use mathlib.Core.Option

abbrev pub fd_dlc_len : List ℕ
fd_dlc_len = 0 ∷ 1 ∷ 2 ∷ 3 ∷ 4 ∷ 5 ∷ 6 ∷ 7 ∷ 8 ∷ 12 ∷ 16 ∷ 20 ∷ 24 ∷ 32 ∷ 48 ∷ 64 ∷ []

unfoldable pub dlc_to_len : ℕ → Bool → ℕ
dlc_to_len code is_fd =
    let dlc = bit_and code 0x0F in
    if leb dlc 8 then dlc else (if is_fd then get_or fd_dlc_len dlc 0 else 8)

-- `iter().position(|&l| l >= len)`, counting from `i`.
unfoldable pub position_ge : List ℕ → ℕ → ℕ → Option ℕ
position_ge [] len i = none
position_ge (l ∷ ls) len i = if leb len l then some i else position_ge ls len (i + 1)

unfoldable pub len_to_dlc : ℕ → ℕ
unfolding position_ge
len_to_dlc len = if leb len 8 then len else Option.get_or (position_ge fd_dlc_len len 0) 15

unfoldable pub payload_dlc : ℕ → Bool → ℕ
payload_dlc len is_fd = len_to_dlc (min len (if is_fd then 64 else 8))
