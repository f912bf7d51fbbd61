-- ===== src/GsUsb/Tests.antt =====
-- gs_usb.rs: the laws on a classic frame, and on a 48 MHz clock at 500 kbit/s.
use wiretap_lib_rs.Base.{
  ℕ, ◌+◌, ◌*◌, ◌/◌, true, false, ◌≡◌, ◌≤◌, ◌<◌, ◌≢◌, refl, none, some, List, [], ◌∷◌, arith, length,
  replicate, leb, All,
}
use wiretap_lib_rs.Dlc.{dlc_to_len}
use wiretap_lib_rs.GsUsb.Frame.{HostFrame, parse_host_frame, encode_host_frame}
use wiretap_lib_rs.GsUsb.Frame.RoundTrip.{
  IsHostFrame, padded, parse-encode_host_frame, parse_host_frame_total,
}
use wiretap_lib_rs.GsUsb.Control.{Bittiming}
use wiretap_lib_rs.GsUsb.Timing.{
  SamplePoint, arrangement, arrangement_at, calculate_bittiming, permissive_constraints,
  quanta_counts, abs_diff, search_best, consider, scored_le,
}
use wiretap_lib_rs.GsUsb.Timing.Accepted.{IsAccepted, IsPlaced, rate_error_of}
use wiretap_lib_rs.GsUsb.Timing.Search.{
  calculate_bittiming-IsAccepted, calculate_bittiming-least, calculate_bittiming-none,
}

abbrev classic_frame : HostFrame
classic_frame = record {
  echo_id = 7;
  arb_id = 0x123;
  extended = false;
  rtr = false;
  error = false;
  channel = 1;
  fd = false;
  brs = false;
  esi = false;
  dlc = 3;
  payload = 1 ∷ 2 ∷ [];
}

classic_frame-IsHostFrame : IsHostFrame classic_frame
unfolding dlc_to_len
classic_frame-IsHostFrame = record {
  echo_fits = omega arith;
  id_fits = omega arith;
  code_fits = omega arith;
  payload_fits = omega arith;
  classic_brs = λ e. refl;
  classic_esi = λ e. refl;
}

parse-encode_host_frame_example :
    parse_host_frame (encode_host_frame classic_frame) ≡ some (padded classic_frame)
parse-encode_host_frame_example = parse-encode_host_frame classic_frame classic_frame-IsHostFrame

abbrev twenty_zeros : List ℕ
twenty_zeros = replicate 20 0

parse_host_frame_total_example :
    (length twenty_zeros < 20 → parse_host_frame twenty_zeros ≡ none)
    × (20 ≤ length twenty_zeros
        → (f : HostFrame) × (parse_host_frame twenty_zeros ≡ some f)
          × (f.arb_id < 0x2000_0000)
          × (length f.payload ≡ dlc_to_len f.dlc f.fd)
          × (f.fd ≡ true → 76 ≤ length twenty_zeros)
          × (f.fd ≡ false → (f.brs ≡ false) × (f.esi ≡ false)))
parse_host_frame_total_example = parse_host_frame_total twenty_zeros

abbrev half_megabit : Bittiming
half_megabit = record { prop_seg = 0; phase_seg1 = 13; phase_seg2 = 2; sjw = 2; brp = 6 }

-- A sample point of 87.5% in thousandths, rounded half up.
abbrev late_sample : SamplePoint
late_sample = record {
  Drift = ℕ;
  quanta = λ tq. (875 * tq + 500) / 1000;
  drift = λ seg1 tq. abs_diff (1000 * (1 + seg1) / tq) 875;
  drift_le = leb;
}

late_timing :
    calculate_bittiming late_sample 48_000_000 500_000 permissive_constraints ≡ some half_megabit
unfolding calculate_bittiming search_best consider arrangement arrangement_at scored_le
late_timing = refl

rate_given : ◌≢◌ {A = ℕ} 500_000 0
rate_given = λ e. absurd (ground (arith, e))

calculate_bittiming-IsAccepted_example :
    IsAccepted 48_000_000 500_000 permissive_constraints half_megabit
calculate_bittiming-IsAccepted_example =
    calculate_bittiming-IsAccepted late_sample 48_000_000 500_000 permissive_constraints
      (omega arith) (omega arith) rate_given half_megabit late_timing

calculate_bittiming-least_example :
    All
      (λ tq.
        (x : Bittiming)
        → IsPlaced late_sample 48_000_000 500_000 tq x
        → IsAccepted 48_000_000 500_000 permissive_constraints x
        → rate_error_of 48_000_000 500_000 half_megabit ≤ rate_error_of 48_000_000 500_000 x)
      quanta_counts
calculate_bittiming-least_example =
    calculate_bittiming-least late_sample 48_000_000 500_000 permissive_constraints (omega arith)
      (omega arith) rate_given half_megabit late_timing

-- A clock slower than the bitrate.
no_timing : calculate_bittiming late_sample 100 500_000 permissive_constraints ≡ none
unfolding calculate_bittiming search_best consider arrangement arrangement_at
no_timing = refl

calculate_bittiming-none_example :
    All
      (λ tq.
        (x : Bittiming)
        → IsPlaced late_sample 100 500_000 tq x
        → ¬ IsAccepted 100 500_000 permissive_constraints x)
      quanta_counts
calculate_bittiming-none_example =
    calculate_bittiming-none late_sample 100 500_000 permissive_constraints (omega arith)
      (omega arith) rate_given (λ e. absurd (ground (arith, e))) no_timing

-- The scale is rounded down: one more would be 12 off the rate in place of 21, with 12 quanta.
rounded_down :
    calculate_bittiming late_sample 48_000_000 23_000 permissive_constraints
    ≡ some (record { prop_seg = 0; phase_seg1 = 3; phase_seg2 = 1; sjw = 1; brp = 417 })
unfolding calculate_bittiming search_best consider arrangement arrangement_at scored_le
rounded_down = refl

-- With 6 quanta a scale of 29 is 23 off the rate, but 28 is no arrangement.
rounded_away : calculate_bittiming late_sample 8_000_000 46_000 permissive_constraints ≡ none
unfolding calculate_bittiming search_best consider arrangement arrangement_at
rounded_away = refl
