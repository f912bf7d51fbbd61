-- ===== src/Decode/Tests.antt =====
-- wiretap-decode: fields of concrete frames, and tests.
use wiretap_lib_rs.Base.{ℕ, ◌-◌, ◌*◌, ◌/◌, ◌%◌, ◌^◌, true, false, ◌≡◌, refl, List, [], ◌∷◌, arith}
use wiretap_lib_rs.Base.Int.{ℤ, pos, negsuc}
use wiretap_lib_rs.Decode.{big, little, extract_bits, apply_word_swap, decode_text, format_hex}
use wiretap_lib_rs.Decode.Bits.{le_number, be_number}
use wiretap_lib_rs.Decode.Time.{civil_from_unix, day_of_era, era}
use wiretap_lib_rs.Decode.Time.Days.{IsTimeOf, civil_from_unix-IsTimeOf}
use wiretap_lib_rs.Decode.Fields.{of_field, extract_bits-big, extract_bits-little}

abbrev frame : List ℕ
frame = 0x12 ∷ 0xFE ∷ 0x34 ∷ []

-- An integer for its conversion to a float.
abbrev unconverted : ℤ → ℤ
unconverted value = value

extract_bits-big_example :
    extract_bits unconverted frame 8 8 big true
    ≡ of_field true 8 (be_number 0 frame / 2 ^ (8 * 3 - 8 - 8) % 2 ^ 8)
extract_bits-big_example =
    extract_bits-big unconverted frame 8 8 true (omega arith) (omega arith) (omega arith)
      (omega arith)

extract_bits-little_example :
    extract_bits unconverted frame 4 12 little false
    ≡ of_field false 12 (le_number frame / 2 ^ 4 % 2 ^ 12)
extract_bits-little_example =
    extract_bits-little unconverted frame 4 12 false (omega arith) (omega arith) (omega arith)
      (omega arith)

minus_two : extract_bits unconverted frame 8 8 big true ≡ negsuc 1
unfolding extract_bits
minus_two = refl

across_bytes : extract_bits unconverted frame 4 12 little false ≡ pos 0xFE1
unfolding extract_bits
across_bytes = refl

-- The last byte of an odd span has a word of its own.
swapped : apply_word_swap (1 ∷ 2 ∷ 3 ∷ 4 ∷ []) 0 32 ≡ 3 ∷ 4 ∷ 1 ∷ 2 ∷ []
unfolding apply_word_swap
swapped = refl

text : decode_text (b'O' ∷ 0 ∷ b'K' ∷ []) 0 32 ≡ b'O' ∷ b'K' ∷ []
unfolding decode_text
text = refl

hex : format_hex (negsuc 1) 16 big ≡ b'F' ∷ b'F' ∷ b' ' ∷ b'F' ∷ b'E' ∷ []
unfolding format_hex
hex = refl

-- 12:34:56 on the 29th of February of 2024, and a second before 1970.
leap_day :
    civil_from_unix (pos 1_709_210_096)
    ≡ record { year = pos 2024; month = 2; day = 29; hour = 12; minute = 34; second = 56 }
unfolding civil_from_unix day_of_era era
leap_day = refl

before_epoch :
    civil_from_unix (negsuc 0)
    ≡ record { year = pos 1969; month = 12; day = 31; hour = 23; minute = 59; second = 59 }
unfolding civil_from_unix day_of_era era
before_epoch = refl

before_year_0 : (civil_from_unix (negsuc 99_999_999_999)).year ≡ negsuc 1198
unfolding civil_from_unix day_of_era era
before_year_0 = refl

civil_from_unix-IsTimeOf_example : IsTimeOf 1_709_210_096 (civil_from_unix (pos 1_709_210_096))
civil_from_unix-IsTimeOf_example = civil_from_unix-IsTimeOf 1_709_210_096
