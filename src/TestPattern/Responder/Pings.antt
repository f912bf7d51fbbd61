-- ===== src/TestPattern/Responder/Pings.antt =====
-- testpattern.rs: a whole run, from its start through its pings.
use wiretap_lib_rs.Base.{
  ℕ, zero, suc, ◌+◌, ◌%◌, Bool, true, false, ◌≡◌, refl, ap, ◌∙◌, sym, List, [], ◌∷◌, ◌++◌, arith,
  length, some, All, append-nil, map,
}
use wiretap_lib_rs.Base.Bytes.{IsU16}
use wiretap_lib_rs.TestPattern.Message.{
  Flags, start, Message, ping_request, ping_reply, control, id_ping_request, id_ping_reply,
  id_control, encode, decode, arb_id,
}
use wiretap_lib_rs.TestPattern.Message.RoundTrip.{IsFlags, decode-encode}
use wiretap_lib_rs.TestPattern.Sweep.{sweep_code}
use wiretap_lib_rs.TestPattern.Sequence.{SequenceTracker, track, track_all}
use wiretap_lib_rs.TestPattern.Sequence
use wiretap_lib_rs.TestPattern.Sequence.Counts.{in_order, length-in_order, track_all-in_order}
use wiretap_lib_rs.TestPattern.Responder.{
  Reply, Responder, frame, frames, on_control, same_run, counted, answers, on_measured, on_message,
  on_frame,
}

-- A frame on the bus, and when it is heard.
pub record Heard : Type 0 where
  pub arb_id : ℕ
  pub extended : Bool
  pub fd : Bool
  pub payload : List ℕ
  pub now_us : ℕ

-- The frames of a bus, in order.
unfoldable pub hear : Responder → List Heard → Responder × List Reply
hear r [] = (r, [])
hear r (h ∷ hs) =
    let first = on_frame r h.arb_id h.extended h.fd h.payload h.now_us in
    let rest = hear first.0 hs in (rest.0, first.1 ++ rest.1)

-- A message as an initiator sends it, in a classic frame with a standard id.
abbrev pub sent : Message → Flags → ℕ → Heard
sent msg flags now_us = record {
  arb_id = arb_id msg;
  extended = false;
  fd = false;
  payload = encode msg flags;
  now_us = now_us;
}

abbrev pub pings : Flags → ℕ → List ℕ → List Heard
pings flags now_us seqs = map (λ seq. sent (ping_request seq) flags now_us) seqs

abbrev pub ping_replies : Flags → List ℕ → List Reply
ping_replies flags seqs =
    map
      (λ seq. record {
        arb_id = id_ping_reply;
        extended = false;
        fd = false;
        payload = encode (ping_reply seq) flags;
      })
      seqs

decoded :
    (msg : Message) (flags : Flags)
    → decode (encode msg flags ++ []) ≡ some (msg, flags)
    → decode (encode msg flags) ≡ some (msg, flags)
decoded msg flags h = ap decode (sym (append-nil (encode msg flags))) ∙ h

module _ (flags : Flags) (fits : IsFlags flags) (now_us : ℕ) where
  own_run : (r : Responder) → r.run ≡ some flags.run → same_run r.run flags.run ≡ true
  unfolding same_run
  own_run r k = ground (arith, k)

  ping_step :
      (r : Responder) (seq : ℕ)
      → IsU16 seq
      → r.run ≡ some flags.run
      → on_frame r id_ping_request false false (encode (ping_request seq) flags) now_us ≡ (
        record r { sequence = track r.sequence seq; tx_count = r.tx_count + 1 },
        ping_replies flags (seq ∷ []),
      )
  unfolding on_frame on_message on_measured counted answers frames frame sweep_code arb_id
  ping_step r seq h k =
      let heard =
        decoded (ping_request seq) flags (decode-encode (ping_request seq) flags [] h fits) in
      rw (heard, on_frame, own_run r k) refl

  hear-pings :
      (r : Responder) (seqs : List ℕ)
      → All IsU16 seqs
      → r.run ≡ some flags.run
      → hear r (pings flags now_us seqs) ≡ (
        record r { sequence = track_all r.sequence seqs; tx_count = r.tx_count + length seqs },
        ping_replies flags seqs,
      )
  unfolding hear track_all arb_id
  hear-pings r [] h k =
      let none_sent : r.tx_count ≡ r.tx_count + 0 = omega arith in
      ap (λ n. (record r { tx_count = n }, [])) none_sent
  hear-pings r (seq ∷ seqs) h k =
      let next = record r { sequence = track r.sequence seq; tx_count = r.tx_count + 1 } in
      let one_more : r.tx_count + 1 + length seqs ≡ r.tx_count + suc (length seqs) = omega arith in
      rw (ping_step r seq h.0 k, hear-pings next seqs h.1 k, one_more) refl

in_order-IsU16 : (first n : ℕ) → IsU16 first → All IsU16 (in_order first n)
in_order-IsU16 first zero h = tt
in_order-IsU16 first (suc n) h = (h, in_order-IsU16 ((first + 1) % 65536) n (omega arith))

-- The state a start leaves.
abbrev started : Responder → ℕ → ℕ → Responder
started r run now_us = record r {
  run = some run;
  started_us = now_us;
  tx_count = 0;
  sequence = Sequence.new;
}

start_step :
    (r : Responder) (flags : Flags) (mode now_us : ℕ)
    → IsFlags flags
    → on_frame r id_control false false (encode (control (start mode flags.run)) flags) now_us
      ≡ (started r flags.run now_us, [])
unfolding on_frame on_message on_control sweep_code
start_step r flags mode now_us h =
    let msg = control (start mode flags.run) in
    rw (decoded msg flags (decode-encode msg flags [] h.run_fits h), on_frame) refl

hear-started :
    (r : Responder) (flags : Flags) (mode t u : ℕ) (seqs : List ℕ)
    → IsFlags flags
    → All IsU16 seqs
    → hear r (sent (control (start mode flags.run)) flags t ∷ pings flags u seqs) ≡ (
      record (started r flags.run t) {
        sequence = track_all Sequence.new seqs;
        tx_count = 0 + length seqs;
      },
      ping_replies flags seqs,
    )
unfolding hear arb_id
hear-started r flags mode t u seqs h k =
    let pinged = hear-pings flags h u (started r flags.run t) seqs k refl in
    ap (λ out. (let rest = hear out.0 (pings flags u seqs) in (rest.0, out.1 ++ rest.1)))
      (start_step r flags mode t h)
    ∙ pinged

-- After a start, from any state before it, pings numbered in order are all answered, each by the
-- reply of its number, and the responder is in the run with every ping counted and none dropped
-- or out of order.
pub hear_run :
    (r : Responder) (flags : Flags) (mode first n t u : ℕ)
    → IsFlags flags
    → IsU16 first
    → let out =
        hear r (sent (control (start mode flags.run)) flags t ∷ pings flags u (in_order first n)) in
      (out.1 ≡ ping_replies flags (in_order first n))
      × (out.0.run ≡ some flags.run)
      × (out.0.tx_count ≡ n)
      × (out.0.sequence.rx_count ≡ n)
      × (out.0.sequence.drops ≡ 0)
      × (out.0.sequence.out_of_order ≡ 0)
hear_run r flags mode first n t u h k =
    let heard = hear-started r flags mode t u (in_order first n) h (in_order-IsU16 first n k) in
    let clean = track_all-in_order first n in
    (
      ap (λ out. out.1) heard,
      ap (λ out. out.0.run) heard,
      ap (λ out. out.0.tx_count) heard ∙ omega (arith, length-in_order first n),
      ap (λ out. out.0.sequence.rx_count) heard ∙ clean.3,
      ap (λ out. out.0.sequence.drops) heard ∙ clean.0,
      ap (λ out. out.0.sequence.out_of_order) heard ∙ clean.1,
    )
