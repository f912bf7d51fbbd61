-- ===== src/TestPattern/Tests.antt =====
-- testpattern.rs: the laws on single frames and short streams.
use wiretap_lib_rs.Base.{
  ◌⊎◌, ℕ, suc, ◌+◌, ◌%◌, true, false, ◌≡◌, refl, none, some, List, [], ◌∷◌, ◌++◌, arith, length,
  All, if◌then◌else◌,
}
use wiretap_lib_rs.TestPattern.Message.{
  Flags, start, hello, control, status, encode, decode, message_of, parse_command, flags_decode,
}
use wiretap_lib_rs.TestPattern.Message.RoundTrip.{IsFlags, decode-encode}
use wiretap_lib_rs.TestPattern.Sweep.{
  sweep_code, sweep_echo_matches, sweep_payload, sweep_bytes, sweep_byte,
}
use wiretap_lib_rs.Dlc.{dlc_to_len}
use wiretap_lib_rs.TestPattern.Sequence.{track_all}
use wiretap_lib_rs.TestPattern.Sequence
use wiretap_lib_rs.TestPattern.Sequence.Counts.{missing, in_order, track_all-balance}
use wiretap_lib_rs.TestPattern.Sequence.Bitmap.{repeats, track_all-duplicates}
use wiretap_lib_rs.TestPattern.Latency.{Latencies, LatencyStats, stats}
use wiretap_lib_rs.TestPattern.Latency.Percentiles.{Describes, stats-Describes}
use wiretap_lib_rs.TestPattern.Responder.{Responder, Reply, on_frame}
use wiretap_lib_rs.TestPattern.Responder
use wiretap_lib_rs.TestPattern.Responder.Laws.{IsUnanswered, on_frame-IsUnanswered}
use wiretap_lib_rs.TestPattern.Responder.Runs.{
  idle_answers, is_some, on_frame-tx_count, on_frame_idle,
}
use wiretap_lib_rs.TestPattern.Responder.Pings.{hear, sent, pings, ping_replies, hear_run}

abbrev run_nine : Flags
run_nine = record { bytes_mode = false; interface = 2; run = 9 }

run_nine-IsFlags : IsFlags run_nine
run_nine-IsFlags = record { interface_fits = omega arith; run_fits = omega arith }

decode-encode_example :
    decode (encode (status 3 1_000_000) run_nine ++ (0 ∷ [])) ≡ some (status 3 1_000_000, run_nine)
decode-encode_example =
    decode-encode (status 3 1_000_000) run_nine (0 ∷ []) (omega arith) run_nine-IsFlags

-- A gap of two, one of them late, and a repeat.
abbrev rough_stream : List ℕ
rough_stream = 11 ∷ 14 ∷ 12 ∷ 14 ∷ []

track_all-balance_example :
    let t = track_all Sequence.new (10 ∷ rough_stream) in
    (e : ℕ) × (t.expected ≡ some e)
    × (missing t.gaps ≡ t.drops)
    × ((e + t.out_of_order) % 65536 ≡ (10 + (t.rx_count + t.drops)) % 65536)
    × (t.rx_count ≡ suc (length rough_stream))
track_all-balance_example =
    track_all-balance 10 rough_stream (omega arith)
      (omega arith, (omega arith, (omega arith, (omega arith, tt))))

track_all-duplicates_example :
    (track_all Sequence.new rough_stream).duplicates ≡ repeats [] rough_stream
track_all-duplicates_example =
    track_all-duplicates rough_stream (omega arith, (omega arith, (omega arith, (omega arith, tt))))

echo_matches : sweep_echo_matches 3 false (sweep_payload 3 false) ≡ true
unfolding sweep_echo_matches sweep_payload sweep_bytes sweep_byte dlc_to_len
echo_matches = refl

abbrev idle : Responder
idle = Responder.new 1 0

abbrev hello_bytes : List ℕ
hello_bytes = 0x06 ∷ 0x94 ∷ 0 ∷ 0 ∷ 0x05 ∷ 0 ∷ 0 ∷ 0 ∷ []

on_frame-IsUnanswered_example : All IsUnanswered (on_frame idle 0x7F6 false false hello_bytes 0).1
on_frame-IsUnanswered_example = on_frame-IsUnanswered idle 0x7F6 false false hello_bytes 0

hello_decodes : decode hello_bytes ≡ some (control hello, run_nine)
unfolding decode message_of parse_command flags_decode
hello_decodes = refl

on_frame-tx_count_example :
    let out = on_frame idle 0x7F6 false false hello_bytes 0 in
    out.0.tx_count ≡ idle.tx_count + length out.1
on_frame-tx_count_example =
    on_frame-tx_count idle 0x7F6 false false hello_bytes 0 (ground (arith, hello_decodes))

on_frame_idle_example :
    length (on_frame idle 0x7F6 false false hello_bytes 0).1
    ≡ (if is_some (sweep_code 0x7F6) then 0 else idle_answers (decode hello_bytes))
unfolding Responder.new
on_frame_idle_example = on_frame_idle idle 0x7F6 false false hello_bytes 0 refl

hear_run_example :
    let out =
      hear idle (sent (control (start 0 9)) run_nine 0 ∷ pings run_nine 5 (in_order 65_535 3)) in
    (out.1 ≡ ping_replies run_nine (in_order 65_535 3))
    × (out.0.run ≡ some 9)
    × (out.0.tx_count ≡ 3)
    × (out.0.sequence.rx_count ≡ 3)
    × (out.0.sequence.drops ≡ 0)
    × (out.0.sequence.out_of_order ≡ 0)
hear_run_example = hear_run idle run_nine 0 65_535 3 0 5 run_nine-IsFlags (omega arith)

abbrev four_trips : Latencies
four_trips = record { samples = 900 ∷ 100 ∷ 250 ∷ 300 ∷ [] }

stats-Describes_example :
    ((four_trips.samples ≡ []) × (stats four_trips ≡ none))
    ⊎ ((st : LatencyStats) × (stats four_trips ≡ some st) × Describes four_trips.samples st)
stats-Describes_example = stats-Describes four_trips (omega arith)
