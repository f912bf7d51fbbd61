-- ===== src/Gvret/Server/Commands.antt =====
-- gvret.rs: a host's encoders against `Decoder`.
use wiretap_lib_rs.Base.{
  ℕ, zero, suc, ◌/◌, ◌%◌, ◌≤◌, min, Bool, true, false, ◌≡◌, refl, sym, ap, ◌∙◌, inl, inr, some, ◌⊎◌,
  List, [], ◌∷◌, ◌++◌, map, flatten, append_assoc, append-nil, ◌||◌, arith, length, take, drop,
  length-append, length-take, drop_exact, drop-drop, take-append, take-take, take-min-length,
  Bool-cases,
}
use wiretap_lib_rs.Base.Bytes.{u32_le_round, u32_from_le}
use wiretap_lib_rs.Base.Framing.{
  go, drain, drain_go, drain_stop, drain_keeps, feed_all, feed_all-drain,
}
use wiretap_lib_rs.Gvret.Ids.{
  cmd, op_frame, sync, req_timebase, req_canbus_params, req_dev_info, req_num_buses, split_gvret_id,
  make_gvret_id, id_span, split-make_gvret_id, make_gvret_id-IsU32,
}
use wiretap_lib_rs.Gvret.Encode.{encode_transmit, encode_transmit_into}
use wiretap_lib_rs.Gvret.Server.{
  ClientCommand, transmit, timebase, canbus_params, dev_info, num_buses, Decoder, new,
  scan_for_handshake, take_transmit, resync, request, take_command, next_command, feed,
}
use wiretap_lib_rs.Gvret.Server.Handshake.{
  has_sync, has_sync-drop, IsSettled, scan_for_handshake-whole, scan_result, scan_found,
  scan_for_handshake_latches,
}
use wiretap_lib_rs.Gvret.Server.Stream.{
  next_command-IsFraming, next_command_suffix, next_command_kept,
}

-- One call of a host's encoder.
pub data Request : Type 0 where
  send : (arb_id : ℕ) (extended : Bool) (bus : ℕ) (payload : List ℕ) → Request
  ask_timebase ask_canbus_params ask_dev_info ask_num_buses : Request

abbrev pub request_bytes : Request → List ℕ
request_bytes (send arb_id extended bus payload) = encode_transmit arb_id extended bus payload
request_bytes ask_timebase = req_timebase
request_bytes ask_canbus_params = req_canbus_params
request_bytes ask_dev_info = req_dev_info
request_bytes ask_num_buses = req_num_buses

-- What the device is to make of it: a payload is cut to 8 bytes, and an id to its width.
abbrev pub received : Request → ClientCommand
received (send arb_id extended bus payload) =
    transmit bus (arb_id % id_span extended) extended (take 8 payload)
received ask_timebase = timebase
received ask_canbus_params = canbus_params
received ask_dev_info = dev_info
received ask_num_buses = num_buses

-- The commands of a decoder over a list of reads.
abbrev pub commands : Decoder → List (List ℕ) → List ClientCommand
commands d [] = []
commands d (chunk ∷ chunks) = let r = feed d chunk in r.1 ++ commands r.0 chunks

take_transmit-header :
    (i0 i1 i2 i3 bus : ℕ) (body more : List ℕ)
    → take_transmit (cmd ∷ op_frame ∷ i0 ∷ i1 ∷ i2 ∷ i3 ∷ bus ∷ length body ∷ (body ++ more)) ≡ (
        let id = split_gvret_id (u32_from_le i0 i1 i2 i3) in
        some (transmit bus id.0 id.1 (take (min (length body) 8) body), more))
unfolding take_transmit
take_transmit-header i0 i1 i2 i3 bus body more = ground (
  arith,
  length-append body more,
  take-append (min (length body) 8) body more,
  drop_exact body more (length body),
  drop-drop 8 (length body)
      (cmd ∷ op_frame ∷ i0 ∷ i1 ∷ i2 ∷ i3 ∷ bus ∷ length body ∷ (body ++ more)),
)

take-take_8 :
    (payload : List ℕ)
    → take
        (min (length (take (min (length payload) 64) payload)) 8)
        (take (min (length payload) 64) payload)
      ≡ take 8 payload
take-take_8 payload =
    let sent = take (min (length payload) 64) payload in
    ap (λ n. take n sent) (omega arith)
    ∙ take-min-length 8 sent
    ∙ take-take 8 (min (length payload) 64) payload
    ∙ ap (λ n. take n payload) (omega arith)
    ∙ take-min-length 8 payload

send-next :
    (arb_id : ℕ) (extended : Bool) (bus : ℕ) (payload more : List ℕ)
    → next_command (encode_transmit arb_id extended bus payload ++ more)
      ≡ go (received (send arb_id extended bus payload) ∷ []) more
unfolding next_command resync take_command encode_transmit encode_transmit_into
send-next arb_id extended bus payload more =
    let id = make_gvret_id arb_id extended in
    let body = take (min (length payload) 64) payload in
    let size : min (length payload) 64 % 256 ≡ length body =
      omega (arith, length-take (min (length payload) 64) payload) in
    ground (
      arith,
      size,
      u32_le_round id (make_gvret_id-IsU32 arb_id extended),
      split-make_gvret_id arb_id extended,
      take-take_8 payload,
      take_transmit-header (id % 256) (id / 256 % 256) (id / 65536 % 256) (id / 16777216 % 256) bus
          body more,
    )

request-next :
    (r : Request) (more : List ℕ)
    → next_command (request_bytes r ++ more) ≡ go (received r ∷ []) more
unfolding next_command resync take_command request
request-next (send arb_id extended bus payload) more = send-next arb_id extended bus payload more
request-next ask_timebase more = ground arith
request-next ask_canbus_params more = ground arith
request-next ask_dev_info more = ground arith
request-next ask_num_buses more = ground arith

drain-requests :
    (rs : List Request) → (drain next_command (flatten (map request_bytes rs))).0 ≡ map received rs
unfolding flatten
drain-requests [] =
    ap (λ r. r.0)
      (drain_stop next_command next_command-IsFraming [] [] next_command-IsFraming.at_end)
drain-requests (r ∷ rs) =
    let more = flatten (map request_bytes rs) in
    rw
      (drain_go next_command next_command-IsFraming (request_bytes r ++ more) more (received r ∷ [])
        (request-next r more))
      (ap (λ tail. received r ∷ tail) (drain-requests rs))

-- What has no handshake, and more of it in front of `later`, has none once a part is dropped.
dropped_clear :
    (n : ℕ) (xs later : List ℕ)
    → has_sync (xs ++ later) ≡ false
    → has_sync (drop n xs ++ later) ≡ false
dropped_clear zero xs later h = h
dropped_clear (suc n) [] later h = h
dropped_clear (suc n) (x ∷ xs) later h =
    dropped_clear n xs later (has_sync-drop 1 (x ∷ (xs ++ later)) h)

front_clear : (xs ys : List ℕ) → has_sync (xs ++ ys) ≡ false → has_sync xs ≡ false
front_clear [] ys h = refl
front_clear (x ∷ []) ys h = refl
front_clear (x ∷ (y ∷ xs)) ys h = ground (arith, front_clear (y ∷ xs) ys)

-- In binary mode, with no handshake in sight, a read goes to the loop as it is.
feed_binary :
    (buf chunk : List ℕ)
    → has_sync (buf ++ chunk) ≡ false
    → feed (record { binary = true; buf = buf }) chunk ≡ (
      record { binary = true; buf = (drain next_command (buf ++ chunk)).1 },
      (drain next_command (buf ++ chunk)).0,
    )
unfolding feed
feed_binary buf chunk h =
    rw
      (scan_for_handshake-whole (record { binary = true; buf = buf }) chunk
        (front_clear buf chunk h))
      (elim (scan_result (buf ++ chunk) 0 0 true) [
        | inl (e, clear) ↦ rw e
        | inr (n, e, found, clear) ↦ cc (h, found)
      ])

commands_binary :
    (buf : List ℕ) (chunks : List (List ℕ))
    → has_sync (buf ++ flatten chunks) ≡ false
    → commands (record { binary = true; buf = buf }) chunks ≡ feed_all next_command buf chunks
unfolding feed_all flatten
commands_binary buf [] h = refl
commands_binary buf (chunk ∷ chunks) h =
    let all = buf ++ chunk in
    let clear : has_sync (all ++ flatten chunks) ≡ false = rw append_assoc h in
    let left =
      drain_keeps next_command next_command-IsFraming (λ b. has_sync (b ++ flatten chunks) ≡ false)
        (λ b keep e p.
          let (n, kept) = next_command_kept b keep e in
          rw kept (dropped_clear n b (flatten chunks) p))
        (λ b rest out e p.
          let (n, kept) = next_command_suffix b rest out e in
          rw kept (dropped_clear n b (flatten chunks) p))
        (length all) all (omega arith) clear in
    rw (feed_binary buf chunk (front_clear all (flatten chunks) clear)) (
      ap (λ tail. (drain next_command all).0 ++ tail)
        (commands_binary (drain next_command all).1 chunks left))

-- In binary mode the reads put out what one read of everything would.
commands-drain :
    (chunks : List (List ℕ))
    → has_sync (flatten chunks) ≡ false
    → commands (record { binary = true; buf = [] }) chunks ≡ (drain next_command (flatten chunks)).0
commands-drain chunks h =
    commands_binary [] chunks h
    ∙ feed_all-drain next_command next_command-IsFraming [] chunks (
        ap (λ r. r.0)
          (drain_stop next_command next_command-IsFraming [] [] next_command-IsFraming.at_end))

-- The first read that completes the handshake, which stands in front of `rest`.
feed_handshake :
    (d : Decoder) (chunk rest : List ℕ)
    → IsSettled d
    → d.binary ≡ false
    → d.buf ++ chunk ≡ sync ++ rest
    → has_sync rest ≡ false
    → feed d chunk
      ≡ (record { binary = true; buf = (drain next_command rest).1 }, (drain next_command rest).0)
unfolding feed
feed_handshake d chunk rest h mode e clear =
    rw (scan_for_handshake-whole d chunk h, e, scan_found 0xE7 0xE7 rest 0 0 d.binary refl)
      (elim (scan_result rest 2 2 true) [
        | inl (cut, none) ↦ rw cut
        | inr (n, cut, found, left) ↦ cc (clear, found)
      ])

-- A read before the handshake is complete puts nothing out and is kept whole.
feed_before :
    (d : Decoder) (chunk : List ℕ)
    → d.binary ≡ false
    → has_sync (d.buf ++ chunk) ≡ false
    → feed d chunk ≡ (record { binary = false; buf = d.buf ++ chunk }, [])
unfolding feed
feed_before d chunk mode clear =
    rw (scan_for_handshake-whole d chunk (front_clear d.buf chunk clear))
      (elim (scan_result (d.buf ++ chunk) 0 0 d.binary) [
        | inl (e, none) ↦ rw (e, mode)
        | inr (n, e, found, left) ↦ cc (clear, found)
      ])

-- The part of a handshake that has arrived, and what completes it.
session_step :
    (p chunk joined later body : List ℕ)
    → joined ≡ p ++ chunk
    → joined ++ later ≡ sync ++ body
    → has_sync p ≡ false
    → ((has_sync joined ≡ false) × (length joined ≤ 1))
      ⊎ ((rest : List ℕ) × (joined ≡ sync ++ rest) × (rest ++ later ≡ body))
session_step p chunk [] later body e f h = inl (refl, omega arith)
session_step p chunk (x ∷ []) later body e f h = inl (refl, omega arith)
session_step p chunk (x ∷ (y ∷ rest)) later body e f h = inr (rest, cc f, cc f)

session :
    (p : List ℕ) (chunks : List (List ℕ)) (body : List ℕ)
    → has_sync p ≡ false
    → p ++ flatten chunks ≡ sync ++ body
    → has_sync body ≡ false
    → commands (record { binary = false; buf = p }) chunks ≡ (drain next_command body).0
unfolding flatten
session p [] body h e clear = cc (h, ap has_sync (sym (append-nil p) ∙ e))
session p (chunk ∷ chunks) body h e clear =
    elim (session_step p chunk (p ++ chunk) (flatten chunks) body refl (rw append_assoc e) h) [
      | inl (waiting, short) ↦
          rw (feed_before (record { binary = false; buf = p }) chunk refl waiting)
            (session (p ++ chunk) chunks body waiting (rw append_assoc e) clear)
      | inr (rest, joined, later) ↦
          let ends : has_sync (rest ++ flatten chunks) ≡ false = rw later clear in
          let alone = front_clear rest (flatten chunks) ends in
          rw (feed_handshake (record { binary = false; buf = p }) chunk rest h refl joined alone) (
            sym (ap (λ r. r.1 ++ commands r.0 chunks) (feed_binary [] rest alone))
            ∙ commands-drain (rest ∷ chunks) ends
            ∙ ap (λ all. (drain next_command all).0) later)
    ]

-- A new decoder that is sent a handshake and then requests, in whatever pieces they arrive, answers
-- one command for each request, in order, provided that no other handshake stands in the bytes.
pub commands-received :
    (rs : List Request) (chunks : List (List ℕ))
    → has_sync (flatten (map request_bytes rs)) ≡ false
    → flatten chunks ≡ sync ++ flatten (map request_bytes rs)
    → commands new chunks ≡ map received rs
commands-received rs chunks clear e =
    session [] chunks (flatten (map request_bytes rs)) refl e clear ∙ drain-requests rs

-- A read keeps the buffer free of handshakes, latches binary mode exactly when a handshake stands
-- in the old buffer and the new bytes, and puts nothing out before that.
pub feed_latches :
    (d : Decoder) (chunk : List ℕ)
    → IsSettled d
    → IsSettled (feed d chunk).0
      × ((feed d chunk).0.binary ≡ (d.binary || has_sync (d.buf ++ chunk)))
      × ((feed d chunk).0.binary ≡ false → (feed d chunk).1 ≡ [])
unfolding feed
feed_latches d chunk h =
    let s = scan_for_handshake d chunk in
    let (settled, latched) = scan_for_handshake_latches d chunk h in
    let kept =
      drain_keeps next_command next_command-IsFraming (λ b. has_sync b ≡ false)
        (λ b keep e p. let (n, e') = next_command_kept b keep e in rw e' (has_sync-drop n b p))
        (λ b rest out e p.
          let (n, e') = next_command_suffix b rest out e in rw e' (has_sync-drop n b p))
        (length s.buf) s.buf (omega arith) settled in
    elim (Bool-cases s.binary) [
      | inl on ↦ (rw on kept, rw on (sym on ∙ latched), rw on (λ e. cc))
      | inr off ↦ (rw off settled, rw off (sym off ∙ latched), rw off (λ e. refl))
    ]
