-- ===== src/TestPattern/Responder/Laws.antt =====
-- testpattern.rs: the replies of a responder, and who hears them.
use wiretap_lib_rs.Base.{
  ℕ, ◌+◌, ◌<◌, Bool, true, false, ◌≡◌, refl, inl, inr, List, [], ◌∷◌, arith, if◌then◌else◌, length,
  none, some, Option-cases, All,
}
use wiretap_lib_rs.Base.Bytes.{resize_exact}
use wiretap_lib_rs.Dlc.{dlc_to_len, len_to_dlc}
use wiretap_lib_rs.TestPattern.Message.{
  Flags, Command, start, stop, set_rate, request_status, hello, hello_reply, unknown, Message,
  ping_request, ping_reply, throughput, latency_probe, latency_reply, control, status, encode,
  decode, flags_decode, flags_encode,
}
use wiretap_lib_rs.TestPattern.Sweep.{sweep_code, sweep_echo_base}
use wiretap_lib_rs.TestPattern.Sweep.Laws.{sweep_code_names, is_test_pattern_frame-arb_id}
use wiretap_lib_rs.TestPattern.Responder.{
  Reply, Responder, frame, frames, status_report, on_control, same_run, counted, answers,
  on_measured, on_message, on_sweep, on_frame,
}

-- The messages that only a responder sends.
abbrev pub is_reply : Message → Bool
is_reply (ping_request seq) = false
is_reply (ping_reply seq) = true
is_reply (throughput seq pattern_id) = false
is_reply (latency_probe seq ts_us) = false
is_reply (latency_reply seq ts_us) = true
is_reply (control hello) = false
is_reply (control (hello_reply capabilities bus)) = true
is_reply (control (start mode run)) = false
is_reply (control stop) = false
is_reply (control (set_rate fps)) = false
is_reply (control request_status) = false
is_reply (control (unknown code b0 b1 b2)) = false
is_reply (status field_id value) = true

-- On the wire a reply stays one, whatever its numbers.
decode-is_reply :
    (msg : Message) (flags : Flags)
    → is_reply msg ≡ true
    → (m : Message) × (is_reply m ≡ true)
      × (decode (encode msg flags) ≡ some (m, flags_decode (flags_encode flags)))
unfolding decode encode
decode-is_reply (ping_request seq) flags h = absurd (ground (arith, h))
decode-is_reply (ping_reply seq) flags h = (_, refl, refl)
decode-is_reply (throughput seq pattern_id) flags h = absurd (ground (arith, h))
decode-is_reply (latency_probe seq ts_us) flags h = absurd (ground (arith, h))
decode-is_reply (latency_reply seq ts_us) flags h = (_, refl, refl)
decode-is_reply (control hello) flags h = absurd (ground (arith, h))
decode-is_reply (control (hello_reply capabilities bus)) flags h = (_, refl, refl)
decode-is_reply (control (start mode run)) flags h = absurd (ground (arith, h))
decode-is_reply (control stop) flags h = absurd (ground (arith, h))
decode-is_reply (control (set_rate fps)) flags h = absurd (ground (arith, h))
decode-is_reply (control request_status) flags h = absurd (ground (arith, h))
decode-is_reply (control (unknown code b0 b1 b2)) flags h = absurd (ground (arith, h))
decode-is_reply (status field_id value) flags h = (_, refl, refl)

length-encode : (msg : Message) (flags : Flags) → length (encode msg flags) ≡ 8
unfolding encode
length-encode (ping_request seq) flags = refl
length-encode (ping_reply seq) flags = refl
length-encode (throughput seq pattern_id) flags = refl
length-encode (latency_probe seq ts_us) flags = refl
length-encode (latency_reply seq ts_us) flags = refl
length-encode (control hello) flags = refl
length-encode (control (hello_reply capabilities bus)) flags = refl
length-encode (control (start mode run)) flags = refl
length-encode (control stop) flags = refl
length-encode (control (set_rate fps)) flags = refl
length-encode (control request_status) flags = refl
length-encode (control (unknown code b0 b1 b2)) flags = refl
length-encode (status field_id value) flags = refl

eight_bytes : dlc_to_len (len_to_dlc 8) true ≡ 8
unfolding dlc_to_len len_to_dlc
eight_bytes = refl

module _ (r : Responder) (msg : Message) (flags : Flags) (extended fd : Bool) where
  -- A framed reply is never padded: eight bytes are a whole length code.
  frame-payload : (frame r msg flags extended fd).1.payload ≡ encode msg flags
  unfolding frame
  frame-payload = ground (
    arith,
    length-encode msg flags,
    eight_bytes,
    resize_exact 8 (encode msg flags) (length-encode msg flags),
  )

  frame-sweep_code : sweep_code (frame r msg flags extended fd).1.arb_id ≡ none
  unfolding frame
  frame-sweep_code = ground (arith, is_test_pattern_frame-arb_id msg)

-- A reply that no responder answers, in whatever state it is.
abbrev pub IsUnanswered : Reply → Type 0
IsUnanswered reply =
    (r : Responder) (now_us : ℕ)
    → on_frame r reply.arb_id reply.extended reply.fd reply.payload now_us ≡ (r, [])

either_same : (b : Bool) (x : Responder × List Reply) → (if b then x else x) ≡ x
either_same true x = refl
either_same false x = refl

answered_by_none :
    (r : Responder) (msg : Message) (flags : Flags) (extended fd : Bool) (now_us : ℕ)
    → is_reply msg ≡ true
    → on_message r msg flags extended fd now_us ≡ (r, [])
unfolding on_message on_measured counted answers frames
answered_by_none r (ping_request seq) flags extended fd now_us h = absurd (ground (arith, h))
answered_by_none r (ping_reply seq) flags extended fd now_us h =
    either_same (same_run r.run flags.run) (r, [])
answered_by_none r (throughput seq pattern_id) flags extended fd now_us h =
    absurd (ground (arith, h))
answered_by_none r (latency_probe seq ts_us) flags extended fd now_us h = absurd (ground (arith, h))
answered_by_none r (latency_reply seq ts_us) flags extended fd now_us h =
    either_same (same_run r.run flags.run) (r, [])
answered_by_none r (control hello) flags extended fd now_us h = absurd (ground (arith, h))
answered_by_none r (control (hello_reply capabilities bus)) flags extended fd now_us h = refl
answered_by_none r (control (start mode run)) flags extended fd now_us h =
    absurd (ground (arith, h))
answered_by_none r (control stop) flags extended fd now_us h = absurd (ground (arith, h))
answered_by_none r (control (set_rate fps)) flags extended fd now_us h = absurd (ground (arith, h))
answered_by_none r (control request_status) flags extended fd now_us h = absurd (ground (arith, h))
answered_by_none r (control (unknown code b0 b1 b2)) flags extended fd now_us h =
    absurd (ground (arith, h))
answered_by_none r (status field_id value) flags extended fd now_us h =
    either_same (same_run r.run flags.run) (r, [])

frame-IsUnanswered :
    (r : Responder) (msg : Message) (flags : Flags) (extended fd : Bool)
    → is_reply msg ≡ true
    → IsUnanswered (frame r msg flags extended fd).1
unfolding on_frame
frame-IsUnanswered r msg flags extended fd h other now_us =
    let reply = (frame r msg flags extended fd).1 in
    let heard = decode-is_reply msg flags h in
    ground (
      arith,
      frame-payload r msg flags extended fd,
      frame-sweep_code r msg flags extended fd,
      heard.2,
      answered_by_none other heard.0 (flags_decode (flags_encode flags)) reply.extended reply.fd
          now_us heard.1,
    )

frames-IsUnanswered :
    (r : Responder) (msgs : List Message) (flags : Flags) (extended fd : Bool)
    → All (λ msg. is_reply msg ≡ true) msgs
    → All IsUnanswered (frames r msgs flags extended fd).1
unfolding frames
frames-IsUnanswered r [] flags extended fd h = tt
frames-IsUnanswered r (msg ∷ msgs) flags extended fd h = (
  frame-IsUnanswered r msg flags extended fd h.0,
  frames-IsUnanswered (frame r msg flags extended fd).0 msgs flags extended fd h.1,
)

either-IsUnanswered :
    (b : Bool) (x y : Responder × List Reply)
    → All IsUnanswered x.1
    → All IsUnanswered y.1
    → All IsUnanswered (if b then x else y).1
either-IsUnanswered true x y h k = h
either-IsUnanswered false x y h k = k

answers-is_reply : (msg : Message) → All (λ m. is_reply m ≡ true) (answers msg)
unfolding answers
answers-is_reply (ping_request seq) = (refl, tt)
answers-is_reply (ping_reply seq) = tt
answers-is_reply (throughput seq pattern_id) = tt
answers-is_reply (latency_probe seq ts_us) = (refl, tt)
answers-is_reply (latency_reply seq ts_us) = tt
answers-is_reply (control c) = tt
answers-is_reply (status field_id value) = tt

module _ (r : Responder) (flags : Flags) (extended fd : Bool) where
  on_measured-IsUnanswered :
      (msg : Message) → All IsUnanswered (on_measured r msg flags extended fd).1
  unfolding on_measured
  on_measured-IsUnanswered msg =
      let own = record r { sequence = counted r.sequence msg } in
      either-IsUnanswered (same_run r.run flags.run) (frames own (answers msg) flags extended fd)
        (r, []) (frames-IsUnanswered own (answers msg) flags extended fd (answers-is_reply msg)) tt

  on_control-IsUnanswered :
      (c : Command) (now_us : ℕ) → All IsUnanswered (on_control r c flags extended fd now_us).1
  unfolding on_control status_report
  on_control-IsUnanswered (start mode run) now_us = tt
  on_control-IsUnanswered stop now_us = tt
  on_control-IsUnanswered (set_rate fps) now_us = tt
  on_control-IsUnanswered request_status now_us =
      frames-IsUnanswered r (status_report r now_us) flags extended fd
        (refl, (refl, (refl, (refl, tt))))
  on_control-IsUnanswered hello now_us =
      frames-IsUnanswered r (control (hello_reply r.capabilities r.bus) ∷ []) flags extended fd
        (refl, tt)
  on_control-IsUnanswered (hello_reply capabilities bus) now_us = tt
  on_control-IsUnanswered (unknown code b0 b1 b2) now_us = tt

  on_message-IsUnanswered :
      (msg : Message) (now_us : ℕ) → All IsUnanswered (on_message r msg flags extended fd now_us).1
  unfolding on_message
  on_message-IsUnanswered (ping_request seq) now_us = on_measured-IsUnanswered (ping_request seq)
  on_message-IsUnanswered (ping_reply seq) now_us = on_measured-IsUnanswered (ping_reply seq)
  on_message-IsUnanswered (throughput seq pattern_id) now_us =
      on_measured-IsUnanswered (throughput seq pattern_id)
  on_message-IsUnanswered (latency_probe seq ts_us) now_us =
      on_measured-IsUnanswered (latency_probe seq ts_us)
  on_message-IsUnanswered (latency_reply seq ts_us) now_us =
      on_measured-IsUnanswered (latency_reply seq ts_us)
  on_message-IsUnanswered (control c) now_us = on_control-IsUnanswered c now_us
  on_message-IsUnanswered (status field_id value) now_us =
      on_measured-IsUnanswered (status field_id value)

echo-IsUnanswered :
    (code : ℕ) (extended fd : Bool) (payload : List ℕ)
    → code < 16
    → IsUnanswered (record {
      arb_id = sweep_echo_base + code;
      extended = extended;
      fd = fd;
      payload = payload;
    })
unfolding on_frame
echo-IsUnanswered code extended fd payload h other now_us =
    let named = (sweep_code_names (sweep_echo_base + code) code true).1 (h, refl) in
    ground (arith, named)

on_sweep-IsUnanswered :
    (r : Responder) (code : ℕ) (is_echo extended fd : Bool) (payload : List ℕ)
    → code < 16
    → All IsUnanswered (on_sweep r code is_echo extended fd payload).1
unfolding on_sweep
on_sweep-IsUnanswered r code true extended fd payload h = tt
on_sweep-IsUnanswered r code false extended fd payload h = elim (Option-cases r.run) [
  | inl e ↦ rw (e) tt
  | inr p ↦ rw (p.1) (echo-IsUnanswered code extended fd payload h, tt)
]

-- No answer of a responder is answered by a responder, this one or another, whatever either's
-- state: two of them on a bus cannot feed each other.
pub on_frame-IsUnanswered :
    (r : Responder) (id : ℕ) (extended fd : Bool) (payload : List ℕ) (now_us : ℕ)
    → All IsUnanswered (on_frame r id extended fd payload now_us).1
unfolding on_frame
on_frame-IsUnanswered r id extended fd payload now_us = elim (Option-cases (sweep_code id)) [
  | inr p ↦
      rw (p.1, on_frame)
        (on_sweep-IsUnanswered r p.0.0 p.0.1 extended fd payload
          ((sweep_code_names id p.0.0 p.0.1).0 p.1).0)
  | inl e ↦ elim (Option-cases (decode payload)) [
    | inl none_decoded ↦ rw (e, none_decoded, on_frame) tt
    | inr q ↦ rw (e, q.1, on_frame) (on_message-IsUnanswered r q.0.1 extended fd q.0.0 now_us)
  ]
]
