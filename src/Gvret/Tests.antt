-- ===== src/Gvret/Tests.antt =====
-- gvret.rs: the laws on a short session, read in two pieces.
use wiretap_lib_rs.Base.{
  ℕ, false, ◌≡◌, refl, ◌||◌, List, [], ◌∷◌, ◌++◌, map, flatten, arith, take, drop,
}
use wiretap_lib_rs.Gvret.Ids.{make_gvret_id, sync}
use wiretap_lib_rs.Gvret.Encode.{
  encode_frame, encode_frame_into, carried, encode_keepalive, encode_transmit, encode_transmit_into,
}
use wiretap_lib_rs.Gvret.Host.{feed}
use wiretap_lib_rs.Gvret.Host
use wiretap_lib_rs.Gvret.Host.Stream.{messages, messages-flatten}
use wiretap_lib_rs.Gvret.Host.RoundTrip.{
  Sent, captured, sent_keepalive, sent_bytes, heard, messages-sent,
}
use wiretap_lib_rs.Gvret.Server.{Decoder, scan_for_handshake}
use wiretap_lib_rs.Gvret.Server
use wiretap_lib_rs.Gvret.Server.Handshake.{
  has_sync, IsSettled, scan_whole, scan_for_handshake-whole,
}
use wiretap_lib_rs.Gvret.Server.Commands.{
  Request, send, ask_timebase, request_bytes, received, commands, commands-received, feed_latches,
}
use wiretap_lib_rs.Dlc.{dlc_to_len, payload_dlc, len_to_dlc}

-- A keepalive, cut behind its opcode.
abbrev two_reads : List (List ℕ)
two_reads = (0xF1 ∷ 0x09 ∷ []) ∷ (0xDE ∷ 0xAD ∷ 0xF1 ∷ []) ∷ []

messages-flatten_example : messages Host.new two_reads ≡ (feed Host.new (flatten two_reads)).1
messages-flatten_example = messages-flatten two_reads

abbrev two_sent : List Sent
two_sent = captured 1000 0x123 false 1 (1 ∷ 2 ∷ 3 ∷ []) false ∷ sent_keepalive ∷ []

abbrev sent_in_two : List (List ℕ)
sent_in_two =
    take 7 (flatten (map sent_bytes two_sent)) ∷ drop 7 (flatten (map sent_bytes two_sent)) ∷ []

sent_in_two-whole : flatten sent_in_two ≡ flatten (map sent_bytes two_sent)
unfolding encode_frame encode_frame_into carried dlc_to_len payload_dlc len_to_dlc make_gvret_id
    encode_keepalive flatten
sent_in_two-whole = refl

messages-sent_example : messages Host.new sent_in_two ≡ map heard two_sent
messages-sent_example = messages-sent two_sent sent_in_two (omega arith, (tt, tt)) sent_in_two-whole

abbrev two_requests : List Request
two_requests = ask_timebase ∷ send 0x7DF false 0 (2 ∷ 1 ∷ []) ∷ []

abbrev request_reads : List (List ℕ)
request_reads = (0xE7 ∷ []) ∷ (0xE7 ∷ flatten (map request_bytes two_requests)) ∷ []

no_other_sync : has_sync (flatten (map request_bytes two_requests)) ≡ false
unfolding encode_transmit encode_transmit_into make_gvret_id flatten
no_other_sync = refl

request_reads-whole : flatten request_reads ≡ sync ++ flatten (map request_bytes two_requests)
unfolding encode_transmit encode_transmit_into make_gvret_id flatten
request_reads-whole = refl

commands-received_example : commands Server.new request_reads ≡ map received two_requests
commands-received_example =
    commands-received two_requests request_reads no_other_sync request_reads-whole

-- Half a handshake is in the buffer.
abbrev half_shaken : Decoder
half_shaken = record { binary = false; buf = 0x41 ∷ 0xE7 ∷ [] }

scan_for_handshake-whole_example :
    scan_for_handshake half_shaken (0xE7 ∷ 0xF1 ∷ []) ≡ scan_whole half_shaken (0xE7 ∷ 0xF1 ∷ [])
scan_for_handshake-whole_example = scan_for_handshake-whole half_shaken (0xE7 ∷ 0xF1 ∷ []) refl

feed_latches_example :
    IsSettled (Server.feed half_shaken (0xE7 ∷ 0xF1 ∷ [])).0
    × ((Server.feed half_shaken (0xE7 ∷ 0xF1 ∷ [])).0.binary
        ≡ (half_shaken.binary || has_sync (half_shaken.buf ++ (0xE7 ∷ 0xF1 ∷ []))))
    × ((Server.feed half_shaken (0xE7 ∷ 0xF1 ∷ [])).0.binary ≡ false
        → (Server.feed half_shaken (0xE7 ∷ 0xF1 ∷ [])).1 ≡ [])
feed_latches_example = feed_latches half_shaken (0xE7 ∷ 0xF1 ∷ []) refl
