-- ===== src/TestPattern/Responder.antt =====
-- testpattern.rs: the responder, the half of the protocol that answers.
pub mod Laws
pub mod Runs
pub mod Pings
use wiretap_lib_rs.Base.{
  ℕ, zero, suc, ◌+◌, ◌-◌, ◌*◌, ◌/◌, ◌^◌, min, bit_and, Bool, true, false, not, ◌&&◌, ◌||◌, Option,
  none, some, List, [], ◌∷◌, length, ltb, ◌==◌, if◌then◌else◌,
}
use wiretap_lib_rs.Base.Bytes.{resize}
use wiretap_lib_rs.Dlc.{dlc_to_len, len_to_dlc}
use wiretap_lib_rs.TestPattern.Message.{
  Flags, Command, start, stop, set_rate, request_status, hello, hello_reply, unknown, Message,
  ping_request, ping_reply, throughput, latency_probe, latency_reply, control, status, arb_id,
  extended_id, encode, decode,
}
use wiretap_lib_rs.TestPattern.Sweep.{sweep_code, sweep_echo_base}
use wiretap_lib_rs.TestPattern.Sequence.{SequenceTracker, track}
use wiretap_lib_rs.TestPattern.Sequence

abbrev pub capability_fd : ℕ
capability_fd = 0x01

abbrev pub field_rx_count : ℕ
field_rx_count = 0x00

abbrev pub field_tx_count : ℕ
field_tx_count = 0x01

abbrev pub field_drops : ℕ
field_drops = 0x02

abbrev pub field_fps : ℕ
field_fps = 0x03

pub record Reply : Type 0 where
  pub arb_id : ℕ
  pub extended : Bool
  pub fd : Bool
  pub payload : List ℕ

pub record Responder : Type 0 where
  pub capabilities : ℕ
  pub bus : ℕ
  pub run : Option ℕ
  pub started_us : ℕ
  pub tx_count : ℕ
  pub sequence : SequenceTracker

unfoldable pub new : ℕ → ℕ → Responder
new capabilities bus = record {
  capabilities = capabilities;
  bus = bus;
  run = none;
  started_us = 0;
  tx_count = 0;
  sequence = Sequence.new;
}

unfoldable pub can_fd : Responder → Bool
can_fd r = not (bit_and r.capabilities capability_fd == 0)

-- The reply to a frame, and the responder that has counted it.
unfoldable pub frame : Responder → Message → Flags → Bool → Bool → Responder × Reply
unfolding can_fd
frame r msg flags extended fd =
    let id = arb_id msg in
    let payload = encode msg flags in
    (
      record r { tx_count = r.tx_count + 1 },
      record {
        arb_id = if extended then extended_id id else id;
        extended = extended;
        fd = fd && can_fd r;
        payload =
            if fd && can_fd r
            then resize (dlc_to_len (len_to_dlc (length payload)) true) payload
            else payload;
      },
    )

unfoldable pub frames : Responder → List Message → Flags → Bool → Bool → Responder × List Reply
frames r [] flags extended fd = (r, [])
frames r (msg ∷ msgs) flags extended fd =
    let first = frame r msg flags extended fd in
    let rest = frames first.0 msgs flags extended fd in (rest.0, first.1 ∷ rest.1)

-- `checked_mul` and `checked_div` of 64 bits, zero where either fails.
unfoldable pub frames_per_second : ℕ → ℕ → ℕ
frames_per_second rx_count elapsed =
    if ltb (rx_count * 1000000) (2 ^ 64) && not (elapsed == 0)
    then rx_count * 1000000 / elapsed
    else 0

unfoldable pub status_of : ℕ → ℕ → Message
status_of field_id value = status field_id (min value 0xFF_FFFF)

unfoldable pub status_report : Responder → ℕ → List Message
unfolding status_of frames_per_second
status_report r now_us =
    status_of field_rx_count r.sequence.rx_count
    ∷ status_of field_tx_count r.tx_count
    ∷ status_of field_drops r.sequence.drops
    ∷ status_of field_fps (frames_per_second r.sequence.rx_count (now_us - r.started_us))
    ∷ []

unfoldable pub on_control : Responder → Command → Flags → Bool → Bool → ℕ → Responder × List Reply
unfolding frames
on_control r hello flags extended fd now_us =
    frames r (control (hello_reply r.capabilities r.bus) ∷ []) flags extended fd
on_control r (start mode run) flags extended fd now_us =
    (record r { run = some run; started_us = now_us; tx_count = 0; sequence = Sequence.new }, [])
on_control r stop flags extended fd now_us = (record r { run = none }, [])
on_control r request_status flags extended fd now_us =
    frames r (status_report r now_us) flags extended fd
on_control r (set_rate fps) flags extended fd now_us = (r, [])
on_control r (hello_reply capabilities bus) flags extended fd now_us = (r, [])
on_control r (unknown code b0 b1 b2) flags extended fd now_us = (r, [])

unfoldable pub same_run : Option ℕ → ℕ → Bool
same_run none run = false
same_run (some own) run = own == run

-- What the initiator numbered is counted.
unfoldable pub counted : SequenceTracker → Message → SequenceTracker
counted t (ping_request seq) = track t seq
counted t (ping_reply seq) = t
counted t (throughput seq pattern_id) = track t seq
counted t (latency_probe seq ts_us) = track t seq
counted t (latency_reply seq ts_us) = t
counted t (control c) = t
counted t (status field_id value) = t

unfoldable pub answers : Message → List Message
answers (ping_request seq) = ping_reply seq ∷ []
answers (ping_reply seq) = []
answers (throughput seq pattern_id) = []
answers (latency_probe seq ts_us) = latency_reply seq ts_us ∷ []
answers (latency_reply seq ts_us) = []
answers (control c) = []
answers (status field_id value) = []

-- Everything that is not control belongs to a run, and only to the responder's own.
unfoldable pub on_measured : Responder → Message → Flags → Bool → Bool → Responder × List Reply
unfolding same_run counted frames
on_measured r msg flags extended fd =
    if same_run r.run flags.run
    then frames (record r { sequence = counted r.sequence msg }) (answers msg) flags extended fd
    else (r, [])

unfoldable pub on_message : Responder → Message → Flags → Bool → Bool → ℕ → Responder × List Reply
unfolding on_control on_measured
on_message r (control c) flags extended fd now_us = on_control r c flags extended fd now_us
on_message r (ping_request seq) flags extended fd now_us =
    on_measured r (ping_request seq) flags extended fd
on_message r (ping_reply seq) flags extended fd now_us =
    on_measured r (ping_reply seq) flags extended fd
on_message r (throughput seq pattern_id) flags extended fd now_us =
    on_measured r (throughput seq pattern_id) flags extended fd
on_message r (latency_probe seq ts_us) flags extended fd now_us =
    on_measured r (latency_probe seq ts_us) flags extended fd
on_message r (latency_reply seq ts_us) flags extended fd now_us =
    on_measured r (latency_reply seq ts_us) flags extended fd
on_message r (status field_id value) flags extended fd now_us =
    on_measured r (status field_id value) flags extended fd

unfoldable pub on_sweep : Responder → ℕ → Bool → Bool → Bool → List ℕ → Responder × List Reply
on_sweep r code is_echo extended fd payload = if is_echo then (r, []) else elim r.run [
  | none ↦ (r, [])
  | some run ↦ (
    record r {
      sequence = record r.sequence { rx_count = r.sequence.rx_count + 1 };
      tx_count = r.tx_count + 1;
    },
    record { arb_id = sweep_echo_base + code; extended = extended; fd = fd; payload = payload }
        ∷ [],
  )
]

unfoldable pub on_frame : Responder → ℕ → Bool → Bool → List ℕ → ℕ → Responder × List Reply
unfolding on_sweep on_message
on_frame r arb_id extended fd payload now_us = elim (sweep_code arb_id) [
  | some sweep ↦ on_sweep r sweep.0 sweep.1 extended fd payload
  | none ↦ (elim (decode payload) [
    | none ↦ (r, [])
    | some framed ↦ on_message r framed.0 framed.1 extended fd now_us
  ])
]
