-- ===== src/Socketcan/Tests.antt =====
-- socketcan.rs: the laws on an FD frame with an extended id.
use wiretap_lib_rs.Base.{
  List, ℕ, true, false, ◌≡◌, ◌≤◌, ◌<◌, ◌↔◌, refl, none, some, [], ◌∷◌, arith, length, replicate,
}
use wiretap_lib_rs.Socketcan.{Frame, parse_frame, encode_frame}
use wiretap_lib_rs.Socketcan.RoundTrip.{IsFrame, parse-encode_frame, parse_frame_total}

abbrev fd_frame : Frame
fd_frame = record {
  arb_id = 0x1234_5678;
  extended = true;
  rtr = false;
  error = false;
  fd = true;
  brs = true;
  esi = false;
  payload = 1 ∷ 2 ∷ 3 ∷ [];
}

fd_frame-IsFrame : IsFrame fd_frame
fd_frame-IsFrame = record {
  id_fits = omega arith;
  payload_fits = omega arith;
  classic_brs = λ e. absurd (ground (arith, e));
  classic_esi = λ e. refl;
}

parse-encode_frame_example : parse_frame false (encode_frame false fd_frame) ≡ some fd_frame
parse-encode_frame_example = parse-encode_frame false fd_frame fd_frame-IsFrame

abbrev sixteen_zeros : List ℕ
sixteen_zeros = replicate 16 0

parse_frame_total_example :
    (length sixteen_zeros < 16 → parse_frame true sixteen_zeros ≡ none)
    × (16 ≤ length sixteen_zeros
        → (f : Frame) × (parse_frame true sixteen_zeros ≡ some f)
          × IsFrame f
          × ((f.fd ≡ true) ↔ (72 ≤ length sixteen_zeros)))
parse_frame_total_example = parse_frame_total true sixteen_zeros
