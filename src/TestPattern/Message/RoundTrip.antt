-- ===== src/TestPattern/Message/RoundTrip.antt =====
-- testpattern.rs: framed messages, encoded and decoded.
use wiretap_lib_rs.Base.{
  ℕ, ◌+◌, ◌*◌, ◌/◌, ◌<◌, bit_and, Bool, true, false, ◌≡◌, ◌≢◌, ap, ◌∙◌, some, List, ◌++◌, arith,
  of_bool, ◌⊎◌,
}
use wiretap_lib_rs.Base.Bits.{bit_and_mask, bit_or_disjoint_low}
use wiretap_lib_rs.Base.Bytes.{IsU16, IsU32, u32_be_round}
use wiretap_lib_rs.TestPattern.Message.{
  Flags, flags_encode, flags_decode, Command, start, stop, set_rate, request_status, hello,
  hello_reply, unknown, Message, ping_request, ping_reply, throughput, latency_probe, latency_reply,
  control, status, encode, decode,
}

-- An interface of three bits and a run of four.
pub record IsFlags (f : Flags) : Type 0 where
  pub interface_fits : f.interface < 8
  pub run_fits : f.run < 16

-- What the wire can carry of each message: a control code that is not known stays unknown, a status
-- counter has 24 bits, and a run four.
abbrev pub IsCommand : Command → Type 0
IsCommand (start mode run) = run < 16
IsCommand stop = Unit
IsCommand (set_rate fps) = IsU16 fps
IsCommand request_status = Unit
IsCommand hello = Unit
IsCommand (hello_reply capabilities bus) = Unit
IsCommand (unknown code b0 b1 b2) = (5 < code) × (code ≢ 0x85) ⊎ (code ≡ 0)

abbrev pub IsMessage : Message → Type 0
IsMessage (ping_request seq) = IsU16 seq
IsMessage (ping_reply seq) = IsU16 seq
IsMessage (throughput seq pattern_id) = IsU16 seq
IsMessage (latency_probe seq ts_us) = IsU16 seq × IsU32 ts_us
IsMessage (latency_reply seq ts_us) = IsU16 seq × IsU32 ts_us
IsMessage (control c) = IsCommand c
IsMessage (status field_id value) = value < 0x100_0000

of_bool_small : (b : Bool) → of_bool b < 2
of_bool_small false = ground arith
of_bool_small true = ground arith

flags_sum :
    (f : Flags) → IsFlags f → flags_encode f ≡ f.run * 16 + f.interface * 2 + of_bool f.bytes_mode
unfolding flags_encode
flags_sum f h = ground (
  arith,
  bit_and_mask 3 f.interface,
  bit_and_mask 4 f.run,
  bit_or_disjoint_low 1 f.interface (of_bool f.bytes_mode),
  bit_or_disjoint_low 4 f.run (f.interface * 2 + of_bool f.bytes_mode),
  of_bool_small f.bytes_mode,
)

flags_decode-encode : (f : Flags) → IsFlags f → flags_decode (flags_encode f) ≡ f
unfolding flags_decode
flags_decode-encode f h = ground (
  arith,
  flags_sum f h,
  of_bool_small f.bytes_mode,
  bit_and_mask 1 (flags_encode f),
  bit_and_mask 3 (flags_encode f / 2),
  bit_and_mask 4 (flags_encode f / 16),
)

parse_command-body :
    (c : Command) (flags : Flags) (padding : List ℕ)
    → IsCommand c
    → decode (encode (control c) flags ++ padding)
      ≡ some (control c, flags_decode (flags_encode flags))
unfolding decode encode
parse_command-body (start mode run) flags padding h =
    ground (arith, bit_and_mask 4 run, bit_and_mask 4 (bit_and run 15))
parse_command-body stop flags padding h = ground arith
parse_command-body (set_rate fps) flags padding h = ground arith
parse_command-body request_status flags padding h = ground arith
parse_command-body hello flags padding h = ground arith
parse_command-body (hello_reply capabilities bus) flags padding h = ground arith
parse_command-body (unknown code b0 b1 b2) flags padding h = ground arith

-- A message the wire can carry comes back from its eight bytes, whatever padding follows, with its
-- flags.
pub decode-encode :
    (msg : Message) (flags : Flags) (padding : List ℕ)
    → IsMessage msg
    → IsFlags flags
    → decode (encode msg flags ++ padding) ≡ some (msg, flags)
unfolding decode encode
decode-encode (ping_request seq) flags padding h hf = ground (arith, flags_decode-encode flags hf)
decode-encode (ping_reply seq) flags padding h hf = ground (arith, flags_decode-encode flags hf)
decode-encode (throughput seq pattern_id) flags padding h hf =
    ground (arith, flags_decode-encode flags hf)
decode-encode (latency_probe seq ts_us) flags padding h hf =
    ground (arith, flags_decode-encode flags hf, u32_be_round ts_us)
decode-encode (latency_reply seq ts_us) flags padding h hf =
    ground (arith, flags_decode-encode flags hf, u32_be_round ts_us)
decode-encode (control c) flags padding h hf =
    parse_command-body c flags padding h
    ∙ ap (λ f. some (control c, f)) (flags_decode-encode flags hf)
decode-encode (status field_id value) flags padding h hf =
    ground (arith, flags_decode-encode flags hf, u32_be_round value)
