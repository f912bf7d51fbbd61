-- ===== src/Slcan/Lines.antt =====
-- slcan.rs: the decoder that splits a device's bytes into lines.
use wiretap_lib_rs.Base.{
  ℕ, Bool, ◌&&◌, ◌||◌, none, some, List, [], ◌∷◌, ◌++◌, length, ltb, leb, ◌==◌, if◌then◌else◌,
}
use wiretap_lib_rs.Slcan.{Frame, parse_frame, bell, max_line_bytes}

pub data Line : Type 0 where
  frame : Frame → Line
  reply : List ℕ → Line

pub record LineDecoder : Type 0 where
  pub buf : List ℕ

abbrev pub new : LineDecoder
new = record { buf = [] }

abbrev pub is_end : ℕ → Bool
is_end byte = byte == 13 || byte == 10

-- ASCII, and no control byte.
abbrev pub is_text : ℕ → Bool
is_text byte = leb 32 byte && ltb byte 127

unfoldable pub line : List ℕ → Line
line buf = elim (parse_frame buf) [ none ↦ reply buf | some f ↦ frame f ]

unfoldable pub end_line : LineDecoder → LineDecoder × List Line
end_line d = elim d.buf [ [] ↦ (d, []) | b ∷ bs ↦ (new, line (b ∷ bs) ∷ []) ]

unfoldable pub feed_byte : LineDecoder → ℕ → LineDecoder × List Line
feed_byte d byte =
    if is_end byte
    then end_line d
    else if byte == bell
    then (new, [])
    else if is_text byte
    then (
      record {
        buf = let buf = d.buf ++ (byte ∷ []) in if ltb max_line_bytes (length buf) then [] else buf;
      },
      [],
    )
    else (d, [])

unfoldable pub feed : LineDecoder → List ℕ → LineDecoder × List Line
feed d [] = (d, [])
feed d (byte ∷ bytes) =
    let now = feed_byte d byte in let later = feed now.0 bytes in (later.0, now.1 ++ later.1)
