-- ===== src/Slcan/Stream.antt =====
-- slcan.rs: the line decoder on streams, in several reads.
use wiretap_lib_rs.Base.{
  ℕ, zero, suc, ◌+◌, ◌%◌, ◌≤◌, ◌<◌, bit_and, true, false, ◌≡◌, refl, sym, ap, ◌∙◌, some, List, [],
  ◌∷◌, ◌++◌, map, flatten, arith, length, ltb, ◌==◌, if◌then◌else◌, All, length-append,
  append_assoc, append-nil, Bool-cases, inl, inr,
}
use wiretap_lib_rs.Base.Tables.{holds_below, holds_at}
use wiretap_lib_rs.ArbId.{arb_mask_ext, arb_mask_std}
use wiretap_lib_rs.Dlc.{dlc_to_len}
use wiretap_lib_rs.Dlc.Laws.{dlc_to_len-le}
use wiretap_lib_rs.Slcan.{
  Frame, prefix, hex_char, id_chars, payload_chars, line_of, encode_frame, encode_frame_into,
  parse_frame, max_line_bytes, bell, carriage_return,
}
use wiretap_lib_rs.Slcan.Lines.{
  Line, frame, LineDecoder, new, is_end, is_text, line, end_line, feed_byte, feed,
}
use wiretap_lib_rs.Slcan.RoundTrip.{
  IsFrame, parse_frame-line_of, length-id_chars, length-payload_chars, hex_char-low,
}

-- The decoder over a list of reads.
abbrev pub lines : LineDecoder → List (List ℕ) → List Line
lines d [] = []
lines d (chunk ∷ chunks) = let r = feed d chunk in r.1 ++ lines r.0 chunks

pub feed-append :
    (d : LineDecoder) (xs ys : List ℕ)
    → feed d (xs ++ ys) ≡ ((feed (feed d xs).0 ys).0, (feed d xs).1 ++ (feed (feed d xs).0 ys).1)
unfolding feed
feed-append d [] ys = refl
feed-append d (x ∷ xs) ys =
    let now = feed_byte d x in
    let later = feed-append now.0 xs ys in
    ap (λ r. (r.0, now.1 ++ r.1)) later
    ∙ ap (λ out. ((feed (feed now.0 xs).0 ys).0, out))
        (sym (append_assoc now.1 (feed now.0 xs).1 (feed (feed now.0 xs).0 ys).1))

-- However a device's bytes are split into reads, the decoder puts out the lines of one read with all
-- of them.
pub lines-flatten :
    (d : LineDecoder) (chunks : List (List ℕ)) → lines d chunks ≡ (feed d (flatten chunks)).1
unfolding flatten feed
lines-flatten d [] = refl
lines-flatten d (chunk ∷ chunks) =
    ap (λ out. (feed d chunk).1 ++ out) (lines-flatten (feed d chunk).0 chunks)
    ∙ ap (λ r. r.1) (sym (feed-append d chunk (flatten chunks)))

-- A buffer of the decoder holds text, within the bound.
abbrev pub IsHeld : LineDecoder → Type 0
IsHeld d = (length d.buf ≤ max_line_bytes) × All (λ b. is_text b ≡ true) d.buf

All-snoc :
    (xs : List ℕ) (b : ℕ)
    → All (λ x. is_text x ≡ true) xs
    → is_text b ≡ true
    → All (λ x. is_text x ≡ true) (xs ++ (b ∷ []))
All-snoc [] b a h = (h, tt)
All-snoc (x ∷ xs) b a h = (a.0, All-snoc xs b a.1 h)

push_text : LineDecoder → ℕ → LineDecoder
push_text d byte = record {
  buf = let buf = d.buf ++ (byte ∷ []) in if ltb max_line_bytes (length buf) then [] else buf;
}

push_text-IsHeld :
    (d : LineDecoder) (byte : ℕ) → IsHeld d → is_text byte ≡ true → IsHeld (push_text d byte)
unfolding push_text
push_text-IsHeld d byte h t =
    elim (Bool-cases (ltb max_line_bytes (length (d.buf ++ (byte ∷ []))))) [
      | inl e ↦ rw (e) (omega arith, tt)
      | inr e ↦ rw (e) (ground (arith, e), All-snoc d.buf byte h.1 t)
    ]

end_line-new : (d : LineDecoder) → (end_line d).0 ≡ new
unfolding end_line
end_line-new d = by_buffer d.buf
  where
    by_buffer : (xs : List ℕ) → (end_line (record { buf = xs })).0 ≡ new
    by_buffer [] = refl
    by_buffer (x ∷ xs) = refl

feed_byte-IsHeld : (d : LineDecoder) (byte : ℕ) → IsHeld d → IsHeld (feed_byte d byte).0
unfolding feed_byte push_text
feed_byte-IsHeld d byte h = elim (Bool-cases (is_end byte)) [
  | inl e ↦ rw (e, end_line-new d) (omega arith, tt)
  | inr e ↦ elim (Bool-cases (byte == bell)) [
    | inl b ↦ rw (e, b) (omega arith, tt)
    | inr b ↦ elim (Bool-cases (is_text byte)) [
      | inl t ↦ rw (e, b, t) (push_text-IsHeld d byte h t)
      | inr t ↦ rw (e, b, t) h
    ]
  ]
]

-- Whatever a device sends, the decoder keeps at most 512 bytes, none of them a control byte.
pub feed-IsHeld : (d : LineDecoder) (chunk : List ℕ) → IsHeld d → IsHeld (feed d chunk).0
unfolding feed
feed-IsHeld d [] h = h
feed-IsHeld d (byte ∷ bytes) h = feed-IsHeld (feed_byte d byte).0 bytes (feed_byte-IsHeld d byte h)

-- Text is appended while there is room.
pub feed_byte-text :
    (xs : List ℕ) (byte : ℕ)
    → is_text byte ≡ true
    → length xs < max_line_bytes
    → feed_byte (record { buf = xs }) byte ≡ (record { buf = xs ++ (byte ∷ []) }, [])
unfolding feed_byte
feed_byte-text xs byte t h =
    let not_end : is_end byte ≡ false = ground (arith, t) in
    let not_bell : (byte == bell) ≡ false = ground (arith, t) in
    let room : ltb max_line_bytes (length (xs ++ (byte ∷ []))) ≡ false =
      ground (arith, h, length-append xs (byte ∷ [])) in
    rw (not_end, not_bell, t, room) refl

feed-text :
    (xs ys : List ℕ)
    → All (λ b. is_text b ≡ true) ys
    → length xs + length ys ≤ max_line_bytes
    → feed (record { buf = xs }) ys ≡ (record { buf = xs ++ ys }, [])
unfolding feed
feed-text xs [] a h = ap (λ b. (record { buf = b }, [])) (sym (append-nil xs))
feed-text xs (y ∷ ys) a h =
    let rest = feed-text (xs ++ (y ∷ [])) ys a.1 (omega (arith, h, length-append xs (y ∷ []))) in
    rw (feed_byte-text xs y a.0 (omega (arith, h)), rest)
      (ap (λ b. (record { buf = b }, [])) (append_assoc xs (y ∷ []) ys))

text_table : holds_below 16 (λ n. is_text (hex_char n)) ≡ true
unfolding holds_below hex_char
text_table = refl

hex_char-text : (n : ℕ) → is_text (hex_char n) ≡ true
hex_char-text n = rw (hex_char-low n) (holds_at 16 _ text_table (n % 16) (omega arith))

All-append :
    (xs ys : List ℕ)
    → All (λ b. is_text b ≡ true) xs
    → All (λ b. is_text b ≡ true) ys
    → All (λ b. is_text b ≡ true) (xs ++ ys)
All-append [] ys a b = b
All-append (x ∷ xs) ys a b = (a.0, All-append xs ys a.1 b)

id_chars-text : (id n : ℕ) → All (λ b. is_text b ≡ true) (id_chars id n)
unfolding id_chars
id_chars-text id zero = tt
id_chars-text id (suc n) = (hex_char-text _, id_chars-text id n)

payload_chars-text :
    (payload : List ℕ) (i n : ℕ) → All (λ b. is_text b ≡ true) (payload_chars payload i n)
unfolding payload_chars
payload_chars-text payload i zero = tt
payload_chars-text payload i (suc n) =
    (hex_char-text _, (hex_char-text _, payload_chars-text payload (i + 1) n))

prefix-text : (f : Frame) → is_text (prefix f) ≡ true
unfolding prefix
prefix-text f = ground arith

line_of-text : (f : Frame) → All (λ b. is_text b ≡ true) (line_of f)
unfolding line_of
line_of-text f = (
  prefix-text f,
  All-append _ _ (id_chars-text _ _) (hex_char-text f.dlc, payload_chars-text _ 0 _),
)

length-line_of : (f : Frame) → 5 ≤ length (line_of f) × (length (line_of f) ≤ 138)
unfolding line_of
length-line_of f =
    let digits : ℕ = if f.extended then 8 else 3 in
    let len : ℕ = if f.rtr then 0 else dlc_to_len f.dlc f.fd in
    let id : ℕ =
      if f.extended then bit_and f.arb_id arb_mask_ext else bit_and f.arb_id arb_mask_std in
    let most : len ≤ 64 = ground (arith, dlc_to_len-le f.dlc f.fd) in
    let few : 3 ≤ digits × (digits ≤ 8) = ground arith in
    omega (
      arith,
      length-append (id_chars id digits) (hex_char f.dlc ∷ payload_chars f.payload 0 len),
      length-id_chars id digits,
      length-payload_chars f.payload 0 len,
    )

heard : (buf : List ℕ) (f : Frame) → parse_frame buf ≡ some f → line buf ≡ frame f
unfolding line
heard buf f e = rw (e, line) refl

end_frame :
    (f : Frame)
    → IsFrame f
    → feed_byte (record { buf = line_of f }) carriage_return ≡ (new, frame f ∷ [])
unfolding feed_byte end_line line line_of
end_frame f h = ap (λ r. (new, r ∷ [])) (heard (line_of f) f (parse_frame-line_of f h))

feed-encode_frame :
    (f : Frame) (more : List ℕ)
    → IsFrame f
    → feed new (encode_frame f ++ more) ≡ ((feed new more).0, frame f ∷ (feed new more).1)
unfolding encode_frame encode_frame_into feed_byte feed
feed-encode_frame f more h =
    let bytes = length-line_of f in
    let held : feed new (line_of f) ≡ (record { buf = line_of f }, []) =
      feed-text [] (line_of f) (line_of-text f) (omega (arith, bytes)) in
    ap (feed new) (append_assoc (line_of f) (carriage_return ∷ []) more)
    ∙ feed-append new (line_of f) (carriage_return ∷ more)
    ∙ ap
        (λ r. ((feed r.0 (carriage_return ∷ more)).0, r.1 ++ (feed r.0 (carriage_return ∷ more)).1))
        held
    ∙ ap (λ r. ((feed r.0 more).0, r.1 ++ (feed r.0 more).1)) (end_frame f h)

-- A decoder that is sent frames as lines, in whatever pieces they arrive, puts out those frames, in
-- order.
pub lines_sent :
    (frames : List Frame) (chunks : List (List ℕ))
    → All IsFrame frames
    → flatten chunks ≡ flatten (map encode_frame frames)
    → lines new chunks ≡ map frame frames
unfolding flatten feed
lines_sent frames chunks a e =
    lines-flatten new chunks ∙ ap (λ bytes. (feed new bytes).1) e ∙ all_heard frames a
  where
    all_heard :
        (fs : List Frame)
        → All IsFrame fs
        → (feed new (flatten (map encode_frame fs))).1 ≡ map frame fs
    all_heard [] b = refl
    all_heard (f ∷ fs) b =
        ap (λ r. r.1) (feed-encode_frame f (flatten (map encode_frame fs)) b.0)
        ∙ ap (λ out. frame f ∷ out) (all_heard fs b.1)
