-- ===== src/Slcan/Tests.antt =====
-- slcan.rs: the theorems at concrete frames, and tests.
use wiretap_lib_rs.Base.{ℕ, true, false, ◌≡◌, refl, none, some, List, [], ◌∷◌, map, flatten, arith}
use wiretap_lib_rs.Dlc.{dlc_to_len}
use wiretap_lib_rs.Slcan.{
  Frame, line_of, encode_frame, encode_frame_into, parse_frame, bitrate_command, lookup, prefix,
  id_chars, payload_chars, hex_char, command, flags_of,
}
use wiretap_lib_rs.Slcan.Lines.{frame, reply, line, new, feed}
use wiretap_lib_rs.Slcan.RoundTrip.{IsFrame, parse_frame-line_of}
use wiretap_lib_rs.Slcan.Segments.{Segment, line_in, lines_told}
use wiretap_lib_rs.Slcan.Stream.{lines, IsHeld, feed-IsHeld, lines_sent}
use wiretap_lib_rs.Slcan.Version.{parse_version}

-- `t1232AB0C`: a classic frame of two bytes.
abbrev ping : Frame
ping = record {
  arb_id = 0x123;
  extended = false;
  rtr = false;
  fd = false;
  brs = false;
  dlc = 2;
  payload = 0xAB ∷ 0x0C ∷ [];
}

abbrev ping_text : List ℕ
ping_text = b't' ∷ b'1' ∷ b'2' ∷ b'3' ∷ b'2' ∷ b'A' ∷ b'B' ∷ b'0' ∷ b'C' ∷ []

-- A request for eight bytes of an extended id.
abbrev ask : Frame
ask = record {
  arb_id = 0x18DAF110;
  extended = true;
  rtr = true;
  fd = false;
  brs = false;
  dlc = 8;
  payload = [];
}

ping-IsFrame : IsFrame ping
unfolding dlc_to_len
ping-IsFrame = record {
  id_fits = omega arith;
  code_fits = omega arith;
  payload_fits = refl;
  payload_bytes = (omega arith, (omega arith, tt));
  classic_remote = λ e. refl;
  classic_brs = λ e. refl;
}

ask-IsFrame : IsFrame ask
unfolding dlc_to_len
ask-IsFrame = record {
  id_fits = omega arith;
  code_fits = omega arith;
  payload_fits = refl;
  payload_bytes = tt;
  classic_remote = λ e. refl;
  classic_brs = λ e. refl;
}

parse_frame-line_of_example : parse_frame (line_of ping) ≡ some ping
parse_frame-line_of_example = parse_frame-line_of ping ping-IsFrame

line_of-ping : line_of ping ≡ ping_text
unfolding line_of prefix id_chars payload_chars hex_char dlc_to_len
line_of-ping = refl

-- The two lines arrive in three reads.
abbrev in_pieces : List (List ℕ)
in_pieces =
    (b't' ∷ b'1' ∷ b'2' ∷ [])
    ∷ (b'3' ∷ b'2' ∷ b'A' ∷ b'B' ∷ b'0' ∷ b'C' ∷ 13 ∷ b'R' ∷ b'1' ∷ [])
    ∷ (b'8' ∷ b'D' ∷ b'A' ∷ b'F' ∷ b'1' ∷ b'1' ∷ b'0' ∷ b'8' ∷ 13 ∷ [])
    ∷ []

pieces_lem : flatten in_pieces ≡ flatten (map encode_frame (ping ∷ ask ∷ []))
unfolding flatten encode_frame encode_frame_into line_of prefix id_chars payload_chars hex_char
    dlc_to_len
pieces_lem = refl

lines_sent_example : lines new in_pieces ≡ map frame (ping ∷ ask ∷ [])
lines_sent_example =
    lines_sent (ping ∷ ask ∷ []) in_pieces (ping-IsFrame, (ask-IsFrame, tt)) pieces_lem

-- Noise cut off by a bell, then a reply with a control byte in it, an empty line, and a bare bell.
abbrev noisy : List Segment
noisy = (b'x' ∷ 7 ∷ b'V' ∷ 0 ∷ b'1' ∷ [], 13) ∷ ([], 10) ∷ (b't' ∷ 7 ∷ [], 13) ∷ []

abbrev noisy_pieces : List (List ℕ)
noisy_pieces = (b'x' ∷ 7 ∷ []) ∷ (b'V' ∷ 0 ∷ b'1' ∷ 13 ∷ 10 ∷ b't' ∷ []) ∷ (7 ∷ 13 ∷ []) ∷ []

lines_told_example : lines new noisy_pieces ≡ flatten (map line_in noisy)
unfolding flatten
lines_told_example =
    lines_told noisy noisy_pieces
      (
        (omega arith, (refl, (refl, (refl, (refl, (refl, tt))))), refl),
        ((omega arith, tt, refl), ((omega arith, (refl, (refl, tt)), refl), tt)),
      )
      refl

noisy_told : flatten (map line_in noisy) ≡ reply (b'V' ∷ b'1' ∷ []) ∷ []
unfolding flatten line parse_frame flags_of
noisy_told = refl

feed-IsHeld_example : IsHeld (feed new (7 ∷ b't' ∷ 200 ∷ b'1' ∷ [])).0
feed-IsHeld_example = feed-IsHeld new (7 ∷ b't' ∷ 200 ∷ b'1' ∷ []) (omega arith, tt)

bitrate_known : bitrate_command 500_000 ≡ some (command b'S' b'6')
unfolding bitrate_command lookup
bitrate_known = refl

bitrate_unknown : bitrate_command 83_333 ≡ none
unfolding bitrate_command lookup
bitrate_unknown = refl

-- ` V1013 `, of a CANable.
canable_reply :
    (parse_version (b' ' ∷ b'V' ∷ b'1' ∷ b'0' ∷ b'1' ∷ b'3' ∷ b' ' ∷ [])).firmware
    ≡ some (b'1' ∷ b'.' ∷ b'0' ∷ b'.' ∷ b'1' ∷ b'3' ∷ [])
unfolding parse_version
canable_reply = refl

-- `V+Board: XMCU: GDevID: 1Firmware: 2490643Slcan: 1`.
abbrev elmue_text : List ℕ
elmue_text =
    b'V' ∷ b'+' ∷ b'B' ∷ b'o' ∷ b'a' ∷ b'r' ∷ b'd' ∷ b':' ∷ b' ' ∷ b'X' ∷ b'M' ∷ b'C' ∷ b'U' ∷ b':'
    ∷ b' ' ∷ b'G' ∷ b'D' ∷ b'e' ∷ b'v' ∷ b'I' ∷ b'D' ∷ b':' ∷ b' ' ∷ b'1' ∷ b'F' ∷ b'i' ∷ b'r'
    ∷ b'm' ∷ b'w' ∷ b'a' ∷ b'r' ∷ b'e' ∷ b':' ∷ b' ' ∷ b'2' ∷ b'4' ∷ b'9' ∷ b'S' ∷ []

elmue_reply : parse_version elmue_text ≡ record {
  firmware = some (b'2' ∷ b'4' ∷ b'9' ∷ []);
  board = some (b'X' ∷ []);
  mcu = some (b'G' ∷ []);
  elmue = true;
}
unfolding parse_version
elmue_reply = refl
