-- ===== src/Gvret/Host/Stream.antt =====
-- gvret.rs: `DeviceDecoder` on a stream in several reads.
use wiretap_lib_rs.Base.{
  flatten, ℕ, ◌+◌, ◌≤◌, ◌<◌, bit_and, true, false, ◌≡◌, refl, sym, ap, ◌∙◌, inl, inr, none, some,
  List, [], ◌∷◌, ◌++◌, arith, length, length-append, length-drop, take-append, drop-append,
  get_or-append, Option-cases, Bool-cases, ◌==◌,
}
use wiretap_lib_rs.Base.Bytes.{at, u32_le_at-append, slice-append}
use wiretap_lib_rs.Base.Framing.{
  stop, go, progress, drain, feed_all, IsFraming, feed_all-drain, drain_stop,
}
use wiretap_lib_rs.Dlc.{dlc_to_len}
use wiretap_lib_rs.Gvret.Ids.{op_frame}
use wiretap_lib_rs.Gvret.Host.{
  DeviceMessage, DeviceDecoder, new, from_cmd, take_frame, fixed_reply, take_message, next_message,
  feed,
}

take_frame-append :
    (buf more rest : List ℕ) (m : DeviceMessage)
    → take_frame buf ≡ some (m, rest)
    → take_frame (buf ++ more) ≡ some (m, rest ++ more)
unfolding take_frame
take_frame-append buf more rest m e = ground (
  arith,
  length-append buf more,
  get_or-append buf more 10 0,
  u32_le_at-append buf more 2,
  u32_le_at-append buf more 6,
  slice-append buf more 11 (dlc_to_len (bit_and (at buf 10) 0x0F) true),
  drop-append (11 + dlc_to_len (bit_and (at buf 10) 0x0F) true) buf more,
)

take_frame-shrinks :
    (buf rest : List ℕ) (m : DeviceMessage)
    → take_frame buf ≡ some (m, rest)
    → length rest < length buf
unfolding take_frame
take_frame-shrinks buf rest m e =
    ground (arith, length-drop (11 + dlc_to_len (bit_and (at buf 10) 0x0F) true) buf)

-- A fixed reply is read inside its length, which is at least 3.
fixed_reply-pos :
    (op len : ℕ) (decode : List ℕ → DeviceMessage) → fixed_reply op ≡ some (len, decode) → 3 ≤ len
unfolding fixed_reply
fixed_reply-pos op len decode e = ground arith

-- A round that starts at a header takes the same off any longer buffer.
frame-append :
    (buf more rest : List ℕ) (out : List DeviceMessage)
    → (at buf 1 == op_frame) ≡ true
    → take_message buf ≡ go out rest
    → (take_message (buf ++ more) ≡ go out (rest ++ more)) × (length rest < length buf)
unfolding take_message
frame-append buf more rest out op e = elim (Option-cases (take_frame buf)) [
  | inl wait ↦ absurd (ground (arith, wait))
  | inr ((m, rest'), taken) ↦ ground (
    arith,
    taken,
    length-append buf more,
    get_or-append buf more 1 0,
    take_frame-append buf more rest' m taken,
    take_frame-shrinks buf rest' m taken,
  )
]

reply-append :
    (buf more rest : List ℕ) (out : List DeviceMessage)
    → (at buf 1 == op_frame) ≡ false
    → take_message buf ≡ go out rest
    → (take_message (buf ++ more) ≡ go out (rest ++ more)) × (length rest < length buf)
unfolding take_message
reply-append buf more rest out op e = elim (Option-cases (fixed_reply (at buf 1))) [
  | inl unknown ↦ ground (
    arith,
    unknown,
    length-append buf more,
    get_or-append buf more 1 0,
    drop-append 1 buf more,
    length-drop 1 buf,
  )
  | inr ((len, decode), known) ↦ ground (
    arith,
    known,
    fixed_reply-pos (at buf 1) len decode known,
    length-append buf more,
    get_or-append buf more 1 0,
    take-append len buf more,
    drop-append len buf more,
    length-drop len buf,
  )
]

take_message_keeps : (buf keep : List ℕ) → take_message buf ≡ stop keep → keep ≡ buf
unfolding take_message
take_message_keeps buf keep e = ground arith

from_cmd-append :
    (buf more start : List ℕ)
    → from_cmd buf ≡ some start
    → (from_cmd (buf ++ more) ≡ some (start ++ more))
      × (from_cmd (start ++ more) ≡ some (start ++ more))
      × (length start ≤ length buf)
unfolding from_cmd
from_cmd-append [] more start e = cc
from_cmd-append (b ∷ bs) more start e = ground (arith, from_cmd-append bs more start)

from_cmd-none : (buf more : List ℕ) → from_cmd buf ≡ none → from_cmd (buf ++ more) ≡ from_cmd more
unfolding from_cmd
from_cmd-none [] more e = refl
from_cmd-none (b ∷ bs) more e = ground (arith, from_cmd-none bs more)

-- Both kinds of message, told apart by the opcode.
take_message-append :
    (buf more rest : List ℕ) (out : List DeviceMessage)
    → take_message buf ≡ go out rest
    → (take_message (buf ++ more) ≡ go out (rest ++ more)) × (length rest < length buf)
take_message-append buf more rest out e = elim (Bool-cases (at buf 1 == op_frame)) [
  | inl op ↦ frame-append buf more rest out op e
  | inr op ↦ reply-append buf more rest out op e
]

-- Where the first header stands decides all but what a round that stops keeps.
pub progress_by_start :
    (a b : List ℕ) → from_cmd a ≡ from_cmd b → progress (next_message a) ≡ progress (next_message b)
unfolding next_message
progress_by_start a b e = elim (Option-cases (from_cmd b)) [
  | inl noise ↦ ground (arith, e, noise)
  | inr (start, found) ↦ ground (arith, e, found)
]

noise-kept :
    (buf keep : List ℕ) → from_cmd buf ≡ none → next_message buf ≡ stop keep → from_cmd keep ≡ none
unfolding next_message from_cmd
noise-kept buf keep noise e = ground arith

next_message-stop :
    (buf more keep : List ℕ)
    → next_message buf ≡ stop keep
    → progress (next_message (keep ++ more)) ≡ progress (next_message (buf ++ more))
unfolding next_message
next_message-stop buf more keep e = elim (Option-cases (from_cmd buf)) [
  | inl noise ↦
      progress_by_start (keep ++ more) (buf ++ more)
        (from_cmd-none keep more (noise-kept buf keep noise e) ∙ sym (from_cmd-none buf more noise))
  | inr (start, found) ↦
      ground (arith, found, take_message_keeps start keep, from_cmd-append buf more start found)
]

pub next_message-IsFraming : IsFraming next_message
unfolding next_message
next_message-IsFraming = record {
  at_end = unfold from_cmd in refl;
  shrinks = λ buf out rest e. elim (Option-cases (from_cmd buf)) [
    | inl noise ↦ absurd (ground (arith, noise))
    | inr (start, found) ↦
        ground
          (arith, found, from_cmd-append buf [] start found, take_message-append start [] rest out)
  ];
  extends = λ buf more out rest e. elim (Option-cases (from_cmd buf)) [
    | inl noise ↦ absurd (ground (arith, noise))
    | inr (start, found) ↦ ground (
      arith,
      found,
      from_cmd-append buf more start found,
      take_message-append start more rest out,
    )
  ];
  resumes = next_message-stop;
}

-- The messages of a decoder over a list of reads.
abbrev pub messages : DeviceDecoder → List (List ℕ) → List DeviceMessage
messages d [] = []
messages d (chunk ∷ chunks) = let r = feed d chunk in r.1 ++ messages r.0 chunks

messages-feed_all :
    (d : DeviceDecoder) (chunks : List (List ℕ))
    → messages d chunks ≡ feed_all next_message d.buf chunks
unfolding feed feed_all
messages-feed_all d [] = refl
messages-feed_all d (chunk ∷ chunks) =
    ap (λ tail. (drain next_message (d.buf ++ chunk)).0 ++ tail)
      (messages-feed_all (feed d chunk).0 chunks)

-- A new decoder puts out the same messages however the bytes that it is sent are split into reads:
-- those of one read with all of them.
pub messages-flatten :
    (chunks : List (List ℕ)) → messages new chunks ≡ (feed new (flatten chunks)).1
unfolding feed
messages-flatten chunks =
    messages-feed_all new chunks
    ∙ feed_all-drain next_message next_message-IsFraming [] chunks (
        ap (λ r. r.0)
          (drain_stop next_message next_message-IsFraming [] [] next_message-IsFraming.at_end))
