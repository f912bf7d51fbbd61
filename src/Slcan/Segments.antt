-- ===== src/Slcan/Segments.antt =====
-- slcan.rs: what the line decoder makes of any bytes, told line by line.
use wiretap_lib_rs.Base.{
  ℕ, ◌+◌, ◌≤◌, true, false, Bool, ◌||◌, ◌≡◌, refl, sym, ap, ◌∙◌, List, [], ◌∷◌, ◌++◌, map, flatten,
  arith, length, ◌==◌, if◌then◌else◌, All, length-append, append_assoc, append-nil, Bool-cases, inl,
  inr,
}
use wiretap_lib_rs.Slcan.{max_line_bytes, bell}
use wiretap_lib_rs.Slcan.Lines.{Line, new, is_end, is_text, line, end_line, feed_byte, feed}
use wiretap_lib_rs.Slcan.Stream.{lines, lines-flatten, feed-append, feed_byte-text}

abbrev texts : List ℕ → List ℕ
texts [] = []
texts (b ∷ bytes) = let rest = texts bytes in if is_text b then b ∷ rest else rest

abbrev has_bell : List ℕ → Bool
has_bell [] = false
has_bell (b ∷ bytes) = b == bell || has_bell bytes

-- The bytes behind the last bell, or all of them.
abbrev after_bell : List ℕ → List ℕ
after_bell [] = []
after_bell (b ∷ bytes) =
    let later = after_bell bytes in
    if has_bell bytes then later else if b == bell then bytes else b ∷ bytes

-- The bytes of a line, and its terminator.
abbrev pub Segment : Type 0
Segment = List ℕ × ℕ

abbrev pub segment_bytes : Segment → List ℕ
segment_bytes (bytes, end) = bytes ++ (end ∷ [])

-- The text behind the last bell of the line, if there is any.
abbrev pub told : List ℕ → List Line
told [] = []
told (b ∷ bytes) = line (b ∷ bytes) ∷ []

abbrev pub line_in : Segment → List Line
line_in (bytes, end) = told (texts (after_bell bytes))

abbrev pub IsSegment : Segment → Type 0
IsSegment (bytes, end) =
    (length bytes ≤ max_line_bytes) × All (λ b. is_end b ≡ false) bytes × (is_end end ≡ true)

-- What the buffer holds behind more bytes.
abbrev carry : List ℕ → List ℕ → List ℕ
carry held bytes = if has_bell bytes then texts (after_bell bytes) else held ++ texts bytes

carry-bell :
    (held bytes : List ℕ) (b : ℕ) → (b == bell) ≡ true → carry held (b ∷ bytes) ≡ carry [] bytes
carry-bell held bytes b h = elim (Bool-cases (has_bell bytes)) [
  | inl e ↦ rw (h, e) refl
  | inr e ↦ rw (h, e) refl
]

carry_text :
    (held bytes : List ℕ) (b : ℕ)
    → (b == bell) ≡ false
    → is_text b ≡ true
    → carry held (b ∷ bytes) ≡ carry (held ++ (b ∷ [])) bytes
carry_text held bytes b h t = elim (Bool-cases (has_bell bytes)) [
  | inl e ↦ rw (h, e) refl
  | inr e ↦ rw (h, e, t) (sym (append_assoc held (b ∷ []) (texts bytes)))
]

carry_other :
    (held bytes : List ℕ) (b : ℕ)
    → (b == bell) ≡ false
    → is_text b ≡ false
    → carry held (b ∷ bytes) ≡ carry held bytes
carry_other held bytes b h t = elim (Bool-cases (has_bell bytes)) [
  | inl e ↦ rw (h, e) refl
  | inr e ↦ rw (h, e, t) refl
]

rings :
    (held : List ℕ) (b : ℕ)
    → is_end b ≡ false
    → (b == bell) ≡ true
    → feed_byte (record { buf = held }) b ≡ (new, [])
unfolding feed_byte
rings held b n e = rw (n, e) refl

passed :
    (held : List ℕ) (b : ℕ)
    → is_end b ≡ false
    → (b == bell) ≡ false
    → is_text b ≡ false
    → feed_byte (record { buf = held }) b ≡ (record { buf = held }, [])
unfolding feed_byte
passed held b n e t = rw (n, e, t) refl

feed-carry :
    (held bytes : List ℕ)
    → length held + length bytes ≤ max_line_bytes
    → All (λ b. is_end b ≡ false) bytes
    → feed (record { buf = held }) bytes ≡ (record { buf = carry held bytes }, [])
unfolding feed
feed-carry held [] h a = ap (λ b. (record { buf = b }, [])) (sym (append-nil held))
feed-carry held (b ∷ bytes) h a = elim (Bool-cases (b == bell)) [
  | inl e ↦
      rw (rings held b a.0 e, feed-carry [] bytes (omega (arith, h)) a.1)
        (ap (λ x. (record { buf = x }, [])) (sym (carry-bell held bytes b e)))
  | inr e ↦ elim (Bool-cases (is_text b)) [
    | inl t ↦
        rw
          (
            feed_byte-text held b t (omega (arith, h)),
            feed-carry (held ++ (b ∷ [])) bytes (omega (arith, h, length-append held (b ∷ []))) a.1,
          )
          (ap (λ x. (record { buf = x }, [])) (sym (carry_text held bytes b e t)))
    | inr t ↦
        rw (passed held b a.0 e t, feed-carry held bytes (omega (arith, h)) a.1)
          (ap (λ x. (record { buf = x }, [])) (sym (carry_other held bytes b e t)))
  ]
]

end_line-told : (xs : List ℕ) → end_line (record { buf = xs }) ≡ (new, told xs)
unfolding end_line
end_line-told [] = refl
end_line-told (x ∷ xs) = refl

after_bell_silent : (bytes : List ℕ) → has_bell bytes ≡ false → after_bell bytes ≡ bytes
after_bell_silent [] h = refl
after_bell_silent (b ∷ bytes) h =
    let silent : has_bell bytes ≡ false = ground (arith, h) in
    let other : (b == bell) ≡ false = ground (arith, h) in rw (silent, other) refl

carry_whole : (bytes : List ℕ) → carry [] bytes ≡ texts (after_bell bytes)
carry_whole bytes = elim (Bool-cases (has_bell bytes)) [
  | inl e ↦ rw e refl
  | inr e ↦ rw (e, after_bell_silent bytes e) refl
]

feed_end :
    (held : List ℕ) (end : ℕ)
    → is_end end ≡ true
    → feed (record { buf = held }) (end ∷ []) ≡ (new, told held)
unfolding feed feed_byte
feed_end held end h = rw (h, end_line-told held) (ap (λ out. (new, out)) (append-nil (told held)))

feed-segment : (s : Segment) → IsSegment s → feed new (segment_bytes s) ≡ (new, line_in s)
feed-segment (bytes, end) (short, inside, ends) =
    feed-append new bytes (end ∷ [])
    ∙ ap (λ r. ((feed r.0 (end ∷ [])).0, r.1 ++ (feed r.0 (end ∷ [])).1))
        (feed-carry [] bytes (omega (arith, short)) inside)
    ∙ feed_end (carry [] bytes) end ends
    ∙ ap (λ held. (new, told held)) (carry_whole bytes)

feed-segments :
    (segments : List Segment)
    → All IsSegment segments
    → feed new (flatten (map segment_bytes segments)) ≡ (new, flatten (map line_in segments))
unfolding flatten feed
feed-segments [] a = refl
feed-segments (s ∷ segments) (a, rest) =
    feed-append new (segment_bytes s) (flatten (map segment_bytes segments))
    ∙ ap
        (λ r. (
          (feed r.0 (flatten (map segment_bytes segments))).0,
          r.1 ++ (feed r.0 (flatten (map segment_bytes segments))).1,
        ))
        (feed-segment s a)
    ∙ ap (λ r. (r.0, line_in s ++ r.1)) (feed-segments segments rest)

-- A new decoder that is sent lines, each of at most 512 bytes and its terminator, in whatever pieces
-- they arrive, puts out for each line the text behind its last bell, read as a frame if it is one,
-- and nothing for a line without such text.
pub lines_told :
    (segments : List Segment) (chunks : List (List ℕ))
    → All IsSegment segments
    → flatten chunks ≡ flatten (map segment_bytes segments)
    → lines new chunks ≡ flatten (map line_in segments)
lines_told segments chunks a e =
    lines-flatten new chunks
    ∙ ap (λ bytes. (feed new bytes).1) e
    ∙ ap (λ r. r.1) (feed-segments segments a)
