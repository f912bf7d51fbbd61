-- ===== src/Checksum/Spec/Measure.antt =====
-- spec.rs: one spec of a sweep by itself.
use wiretap_lib_rs.Base.{
  ℕ, ◌+◌, min, Bool, true, false, ◌≡◌, refl, sym, ap, ◌∙◌, Option, none, some, List, [], ◌∷◌, ◌++◌,
  map, length, of_bool, ltb, leb, if◌then◌else◌, arith, Bool-cases, inl, inr,
}
use wiretap_lib_rs.Checksum.Frame.{
  resolve_byte_index, calculated_range, calculate_checksum, validate_checksum,
}
use wiretap_lib_rs.Checksum.Spec.{
  ChecksumSpec, ChecksumSpecResult, key_of, calculated, count_frame, tally, result_of,
}

abbrev pub is_some {ℓ} : {A : Type ℓ} → Option A → Bool
is_some none = false
is_some (some a) = true

-- Whether a frame is evidence for a spec, and whether it agrees.
abbrev pub is_evidence : ChecksumSpec → List ℕ → Bool
is_evidence spec frame = is_some (
    calculated_range (length frame) spec.position spec.byte_length spec.calc_start_byte
      spec.calc_end_byte)

abbrev pub agrees : ChecksumSpec → List ℕ → Bool
agrees spec frame =
    (validate_checksum spec.algorithm frame spec.position spec.byte_length spec.big_endian
      spec.calc_start_byte spec.calc_end_byte).valid

-- A spec by itself: the frames that agree, and those that are evidence.
abbrev pub measured : ChecksumSpec → List (List ℕ) → ℕ × ℕ
measured spec [] = (0, 0)
measured spec (frame ∷ frames) =
    let rest = measured spec frames in
    if is_evidence spec frame then (of_bool (agrees spec frame) + rest.0, 1 + rest.1) else rest

-- The specs from an index on, each by itself.
abbrev pub each : List (List ℕ) → ℕ → List ChecksumSpec → List ChecksumSpecResult
each frames idx [] = []
each frames idx (spec ∷ specs) = result_of idx (measured spec frames) ++ each frames (idx + 1) specs

-- The range of a spec, which its group shares, and the end of its field.
abbrev starts_at : ChecksumSpec → List ℕ → ℕ
starts_at spec frame = min (resolve_byte_index spec.calc_start_byte (length frame)) (length frame)

abbrev ends_at : ChecksumSpec → List ℕ → ℕ
ends_at spec frame = min (resolve_byte_index spec.calc_end_byte (length frame)) (length frame)

abbrev field_end : ChecksumSpec → List ℕ → ℕ
field_end spec frame = resolve_byte_index spec.position (length frame) + spec.byte_length

degenerate :
    (spec : ChecksumSpec) (frame : List ℕ)
    → ltb (starts_at spec frame) (ends_at spec frame) ≡ false
    → (calculated (key_of spec) frame ≡ none) × (is_evidence spec frame ≡ false)
unfolding calculated calculated_range
degenerate spec frame e = elim (Bool-cases (ltb (length frame) (field_end spec frame))) [
  | inl o ↦ (rw e refl, rw o refl)
  | inr o ↦ (rw e refl, rw (o) (rw (e) refl))
]

proper :
    (spec : ChecksumSpec) (frame : List ℕ)
    → ltb (starts_at spec frame) (ends_at spec frame) ≡ true
    → calculated (key_of spec) frame
      ≡ some (calculate_checksum spec.algorithm frame spec.calc_start_byte spec.calc_end_byte)
unfolding calculated calculate_checksum
proper spec frame e =
    let some_bytes : leb (ends_at spec frame) (starts_at spec frame) ≡ false = ground (arith, e) in
    rw (e, some_bytes) refl

count_frame_lem :
    (spec : ChecksumSpec) (frame : List ℕ) (counts : ℕ × ℕ)
    → ltb (starts_at spec frame) (ends_at spec frame) ≡ true
    → count_frame spec frame
        (calculate_checksum spec.algorithm frame spec.calc_start_byte spec.calc_end_byte)
        counts
      ≡ (if is_evidence spec frame
          then (of_bool (agrees spec frame) + counts.0, 1 + counts.1)
          else counts)
unfolding count_frame calculated_range validate_checksum
count_frame_lem spec frame counts e =
    elim (Bool-cases (ltb (length frame) (field_end spec frame))) [
      | inl o ↦ rw o refl
      | inr o ↦ rw (o) (rw (e) refl)
    ]

pub tally-measured :
    (spec : ChecksumSpec) (frames : List (List ℕ))
    → tally spec frames (map (calculated (key_of spec)) frames) ≡ measured spec frames
unfolding tally
tally-measured spec [] = refl
tally-measured spec (frame ∷ frames) =
    let rest = tally-measured spec frames in
    let calcs = map (calculated (key_of spec)) frames in
    elim (Bool-cases (ltb (starts_at spec frame) (ends_at spec frame))) [
      | inl e ↦
          ap (λ o. tally spec (frame ∷ frames) (o ∷ calcs)) (proper spec frame e)
          ∙ count_frame_lem spec frame (tally spec frames calcs) e
          ∙ ap
              (λ (counts : ℕ × ℕ).
                if is_evidence spec frame
                then (of_bool (agrees spec frame) + counts.0, 1 + counts.1)
                else counts)
              rest
      | inr e ↦
          let none_left = degenerate spec frame e in
          ap (λ o. tally spec (frame ∷ frames) (o ∷ calcs)) (none_left.0)
          ∙ rest
          ∙ ap
              (λ (b : Bool).
                if b
                then (
                  of_bool (agrees spec frame) + (measured spec frames).0,
                  1 + (measured spec frames).1,
                )
                else measured spec frames)
              (sym (none_left.1))
    ]
