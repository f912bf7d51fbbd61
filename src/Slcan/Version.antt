-- ===== src/Slcan/Version.antt =====
-- slcan.rs: the reply to a version query. A text is the list of its bytes, all of them ASCII.
use mathlib.Core.List.{reverse}
use wiretap_lib_rs.Base.{
  ℕ, suc, ◌+◌, Bool, true, false, ◌&&◌, ◌||◌, Option, none, some, List, [], ◌∷◌, length, take, drop,
  leb, ◌==◌, if◌then◌else◌,
}

pub record Version : Type 0 where
  pub firmware : Option (List ℕ)
  pub board : Option (List ℕ)
  pub mcu : Option (List ℕ)
  pub elmue : Bool

abbrev pub is_whitespace : ℕ → Bool
is_whitespace c = (leb 9 c && leb c 13) || c == 32

abbrev pub is_ascii_digit : ℕ → Bool
is_ascii_digit c = leb b'0' c && leb c b'9'

unfoldable pub skip_while : (ℕ → Bool) → List ℕ → List ℕ
skip_while p [] = []
skip_while p (c ∷ cs) = if p c then skip_while p cs else c ∷ cs

unfoldable pub take_while : (ℕ → Bool) → List ℕ → List ℕ
take_while p [] = []
take_while p (c ∷ cs) = if p c then c ∷ take_while p cs else []

unfoldable pub trim : List ℕ → List ℕ
unfolding skip_while
trim s = reverse (skip_while is_whitespace (reverse (skip_while is_whitespace s)))

unfoldable pub starts_with : List ℕ → List ℕ → Bool
starts_with [] s = true
starts_with (p ∷ ps) [] = false
starts_with (p ∷ ps) (c ∷ cs) = p == c && starts_with ps cs

-- Where a text is first found in another.
unfoldable pub find : List ℕ → List ℕ → Option ℕ
unfolding starts_with
find [] p = if starts_with p [] then some 0 else none
find (c ∷ cs) p =
    let later = find cs p in
    if starts_with p (c ∷ cs) then some 0 else elim later [ none ↦ none | some at ↦ some (suc at) ]

-- The text in front of the next label, or all of it.
unfoldable pub up_to : List ℕ → List ℕ → List ℕ
unfolding find
up_to label rest = take (elim (find rest label) [ none ↦ length rest | some end ↦ end ]) rest

abbrev pub firmware_label : List ℕ
firmware_label = b'F' ∷ b'i' ∷ b'r' ∷ b'm' ∷ b'w' ∷ b'a' ∷ b'r' ∷ b'e' ∷ b':' ∷ []

abbrev pub board_label : List ℕ
board_label = b'B' ∷ b'o' ∷ b'a' ∷ b'r' ∷ b'd' ∷ b':' ∷ []

abbrev pub mcu_label : List ℕ
mcu_label = b'M' ∷ b'C' ∷ b'U' ∷ b':' ∷ []

abbrev pub dev_id_label : List ℕ
dev_id_label = b'D' ∷ b'e' ∷ b'v' ∷ b'I' ∷ b'D' ∷ b':' ∷ []

abbrev dotted : List ℕ → List ℕ
dotted (a ∷ b ∷ c ∷ d ∷ []) = a ∷ b'.' ∷ b ∷ b'.' ∷ c ∷ d ∷ []
dotted s = s

abbrev all_digits : List ℕ → Bool
all_digits [] = true
all_digits (c ∷ cs) = is_ascii_digit c && all_digits cs

unfoldable pub format_version : List ℕ → List ℕ
unfolding trim
format_version text = let s = trim text in if length s == 4 && all_digits s then dotted s else s

-- `strip_prefix(['V', 'v'])`, or the text itself.
unfoldable pub strip_echo : List ℕ → List ℕ
strip_echo [] = []
strip_echo (c ∷ cs) = if c == b'V' || c == b'v' then cs else c ∷ cs

abbrev non_empty : List ℕ → Option (List ℕ)
non_empty [] = none
non_empty (c ∷ cs) = some (c ∷ cs)

-- The number that follows the label.
unfoldable pub firmware_of : List ℕ → Option (List ℕ)
unfolding format_version skip_while take_while
firmware_of after =
    let digits = take_while is_ascii_digit (skip_while is_whitespace after) in
    elim digits [ [] ↦ none | c ∷ cs ↦ some (format_version (c ∷ cs)) ]

unfoldable pub board_of : List ℕ → Option (List ℕ)
unfolding find up_to trim skip_while
board_of s = elim (find s board_label) [
  | none ↦ none
  | some at ↦
      non_empty (trim (skip_while (λ c. c == b'+') (trim (up_to mcu_label (drop (at + 6) s)))))
]

unfoldable pub mcu_of : List ℕ → Option (List ℕ)
unfolding find up_to trim
mcu_of s = elim (find s mcu_label) [
  | none ↦ none
  | some at ↦ non_empty (trim (up_to dev_id_label (drop (at + 4) s)))
]

unfoldable pub parse_version : List ℕ → Version
unfolding trim find strip_echo format_version firmware_of board_of mcu_of
parse_version text =
    let s = trim text in
    elim (find s firmware_label) [
      | none ↦ record {
        firmware = some (format_version (strip_echo s));
        board = none;
        mcu = none;
        elmue = false;
      }
      | some fw_at ↦ record {
        firmware = firmware_of (drop (fw_at + 9) s);
        board = board_of s;
        mcu = mcu_of s;
        elmue = true;
      }
    ]
