-- ===== src/TestPattern/Responder/Runs.antt =====
-- testpattern.rs: a responder that is idle or in a run, and its count of frames.
use wiretap_lib_rs.Base.{
  ℕ, suc, ◌+◌, Bool, true, false, ◌≡◌, refl, ap, ◌∙◌, sym, inl, inr, List, [], ◌∷◌, arith,
  if◌then◌else◌, length, none, some, Option, Option-cases,
}
use wiretap_lib_rs.TestPattern.Message.{
  Flags, Command, start, stop, set_rate, request_status, hello, hello_reply, unknown, Message,
  ping_request, ping_reply, throughput, latency_probe, latency_reply, control, status, decode,
}
use wiretap_lib_rs.TestPattern.Sweep.{sweep_code}
use wiretap_lib_rs.TestPattern.Responder.{
  Reply, Responder, frame, frames, status_report, on_control, same_run, counted, answers,
  on_measured, on_message, on_sweep, on_frame,
}

module _ (flags : Flags) (extended fd : Bool) where
  frames-tx_count :
      (r : Responder) (msgs : List Message)
      → (frames r msgs flags extended fd).0.tx_count ≡ r.tx_count + length msgs
  unfolding frames frame
  frames-tx_count r [] = omega arith
  frames-tx_count r (msg ∷ msgs) =
      omega (arith, frames-tx_count (frame r msg flags extended fd).0 msgs)

  length-frames :
      (r : Responder) (msgs : List Message)
      → length (frames r msgs flags extended fd).1 ≡ length msgs
  unfolding frames
  length-frames r [] = refl
  length-frames r (msg ∷ msgs) = ap suc (length-frames (frame r msg flags extended fd).0 msgs)

-- How many frames an idle responder sends for a message: one for a hello, four for a status
-- request, none for anything else.
abbrev pub idle_answers : Option (Message × Flags) → ℕ
idle_answers none = 0
idle_answers (some (control hello, flags)) = 1
idle_answers (some (control request_status, flags)) = 4
idle_answers (some (control (start mode run), flags)) = 0
idle_answers (some (control stop, flags)) = 0
idle_answers (some (control (set_rate fps), flags)) = 0
idle_answers (some (control (hello_reply capabilities bus), flags)) = 0
idle_answers (some (control (unknown code b0 b1 b2), flags)) = 0
idle_answers (some (ping_request seq, flags)) = 0
idle_answers (some (ping_reply seq, flags)) = 0
idle_answers (some (throughput seq pattern_id, flags)) = 0
idle_answers (some (latency_probe seq ts_us, flags)) = 0
idle_answers (some (latency_reply seq ts_us, flags)) = 0
idle_answers (some (status field_id value, flags)) = 0

abbrev pub is_start : Option (Message × Flags) → Bool
is_start none = false
is_start (some (control hello, flags)) = false
is_start (some (control request_status, flags)) = false
is_start (some (control (start mode run), flags)) = true
is_start (some (control stop, flags)) = false
is_start (some (control (set_rate fps), flags)) = false
is_start (some (control (hello_reply capabilities bus), flags)) = false
is_start (some (control (unknown code b0 b1 b2), flags)) = false
is_start (some (ping_request seq, flags)) = false
is_start (some (ping_reply seq, flags)) = false
is_start (some (throughput seq pattern_id, flags)) = false
is_start (some (latency_probe seq ts_us, flags)) = false
is_start (some (latency_reply seq ts_us, flags)) = false
is_start (some (status field_id value, flags)) = false

-- The frames sent are those counted, and the idle responder sends only answers to questions.
abbrev Counts : Responder → Responder × List Reply → Type 0
Counts r out = out.0.tx_count ≡ r.tx_count + length out.1

module _ (r : Responder) (flags : Flags) (extended fd : Bool) where
  on_measured-Counts : (msg : Message) → Counts r (on_measured r msg flags extended fd)
  unfolding on_measured
  on_measured-Counts msg =
      let own = record r { sequence = counted r.sequence msg } in
      ground (
        arith,
        frames-tx_count flags extended fd own (answers msg),
        length-frames flags extended fd own (answers msg),
      )

  on_control-Counts :
      (c : Command) (now_us : ℕ)
      → is_start (some (control c, flags)) ≡ false
      → Counts r (on_control r c flags extended fd now_us)
  unfolding on_control
  on_control-Counts (start mode run) now_us h = absurd (ground (arith, h))
  on_control-Counts stop now_us h = omega arith
  on_control-Counts (set_rate fps) now_us h = omega arith
  on_control-Counts request_status now_us h =
      let msgs = status_report r now_us in
      omega
        (arith, frames-tx_count flags extended fd r msgs, length-frames flags extended fd r msgs)
  on_control-Counts hello now_us h =
      let msgs = control (hello_reply r.capabilities r.bus) ∷ [] in
      omega
        (arith, frames-tx_count flags extended fd r msgs, length-frames flags extended fd r msgs)
  on_control-Counts (hello_reply capabilities bus) now_us h = omega arith
  on_control-Counts (unknown code b0 b1 b2) now_us h = omega arith

  on_message-Counts :
      (msg : Message) (now_us : ℕ)
      → is_start (some (msg, flags)) ≡ false
      → Counts r (on_message r msg flags extended fd now_us)
  unfolding on_message
  on_message-Counts (ping_request seq) now_us h = on_measured-Counts (ping_request seq)
  on_message-Counts (ping_reply seq) now_us h = on_measured-Counts (ping_reply seq)
  on_message-Counts (throughput seq pattern_id) now_us h =
      on_measured-Counts (throughput seq pattern_id)
  on_message-Counts (latency_probe seq ts_us) now_us h =
      on_measured-Counts (latency_probe seq ts_us)
  on_message-Counts (latency_reply seq ts_us) now_us h =
      on_measured-Counts (latency_reply seq ts_us)
  on_message-Counts (status field_id value) now_us h = on_measured-Counts (status field_id value)
  on_message-Counts (control c) now_us h = on_control-Counts c now_us h

on_sweep-Counts :
    (r : Responder) (code : ℕ) (is_echo extended fd : Bool) (payload : List ℕ)
    → Counts r (on_sweep r code is_echo extended fd payload)
unfolding on_sweep
on_sweep-Counts r code is_echo extended fd payload = ground arith

-- Whatever a frame that is not a start brings, the count of frames sent grows by the replies.
pub on_frame-tx_count :
    (r : Responder) (id : ℕ) (extended fd : Bool) (payload : List ℕ) (now_us : ℕ)
    → is_start (decode payload) ≡ false
    → let out = on_frame r id extended fd payload now_us in
      out.0.tx_count ≡ r.tx_count + length out.1
unfolding on_frame
on_frame-tx_count r id extended fd payload now_us h = elim (Option-cases (sweep_code id)) [
  | inr p ↦ rw (p.1, on_frame) (on_sweep-Counts r p.0.0 p.0.1 extended fd payload)
  | inl e ↦ elim (Option-cases (decode payload)) [
    | inl none_decoded ↦ rw (e, none_decoded, on_frame) (omega arith)
    | inr q ↦
        rw (e, q.1, on_frame)
          (on_message-Counts r q.0.1 extended fd q.0.0 now_us (ap is_start (sym q.1) ∙ h))
  ]
]

idle_measured :
    (r : Responder) (msg : Message) (flags : Flags) (extended fd : Bool)
    → r.run ≡ none
    → on_measured r msg flags extended fd ≡ (r, [])
unfolding on_measured same_run
idle_measured r msg flags extended fd h = ground (arith, h)

idle_message :
    (r : Responder) (msg : Message) (flags : Flags) (extended fd : Bool) (now_us : ℕ)
    → r.run ≡ none
    → length (on_message r msg flags extended fd now_us).1 ≡ idle_answers (some (msg, flags))
unfolding on_message on_control status_report
idle_message r (ping_request seq) flags extended fd now_us h =
    ground (arith, idle_measured r (ping_request seq) flags extended fd h)
idle_message r (ping_reply seq) flags extended fd now_us h =
    ground (arith, idle_measured r (ping_reply seq) flags extended fd h)
idle_message r (throughput seq pattern_id) flags extended fd now_us h =
    ground (arith, idle_measured r (throughput seq pattern_id) flags extended fd h)
idle_message r (latency_probe seq ts_us) flags extended fd now_us h =
    ground (arith, idle_measured r (latency_probe seq ts_us) flags extended fd h)
idle_message r (latency_reply seq ts_us) flags extended fd now_us h =
    ground (arith, idle_measured r (latency_reply seq ts_us) flags extended fd h)
idle_message r (status field_id value) flags extended fd now_us h =
    ground (arith, idle_measured r (status field_id value) flags extended fd h)
idle_message r (control (start mode run)) flags extended fd now_us h = refl
idle_message r (control stop) flags extended fd now_us h = refl
idle_message r (control (set_rate fps)) flags extended fd now_us h = refl
idle_message r (control request_status) flags extended fd now_us h =
    length-frames flags extended fd r (status_report r now_us)
idle_message r (control hello) flags extended fd now_us h =
    length-frames flags extended fd r (control (hello_reply r.capabilities r.bus) ∷ [])
idle_message r (control (hello_reply capabilities bus)) flags extended fd now_us h = refl
idle_message r (control (unknown code b0 b1 b2)) flags extended fd now_us h = refl

idle_sweep :
    (r : Responder) (code : ℕ) (is_echo extended fd : Bool) (payload : List ℕ)
    → r.run ≡ none
    → length (on_sweep r code is_echo extended fd payload).1 ≡ 0
unfolding on_sweep
idle_sweep r code is_echo extended fd payload h = ground (arith, h)

abbrev pub is_some {ℓ} : {A : Type ℓ} → Option A → Bool
is_some none = false
is_some (some a) = true

-- An idle responder sends one frame for a hello, four for a status request, and nothing for any
-- other frame, sweeps included.
pub on_frame_idle :
    (r : Responder) (id : ℕ) (extended fd : Bool) (payload : List ℕ) (now_us : ℕ)
    → r.run ≡ none
    → length (on_frame r id extended fd payload now_us).1
      ≡ (if is_some (sweep_code id) then 0 else idle_answers (decode payload))
unfolding on_frame
on_frame_idle r id extended fd payload now_us h = elim (Option-cases (sweep_code id)) [
  | inr p ↦ rw (p.1, on_frame) (idle_sweep r p.0.0 p.0.1 extended fd payload h)
  | inl e ↦ elim (Option-cases (decode payload)) [
    | inl none_decoded ↦ rw (e, none_decoded, on_frame) refl
    | inr q ↦ rw (e, q.1, on_frame) (idle_message r q.0.0 q.0.1 extended fd now_us h)
  ]
]
