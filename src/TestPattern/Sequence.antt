-- ===== src/TestPattern/Sequence.antt =====
-- testpattern.rs: the sequence tracker, its counters and its bitmap of numbers seen. The counters
-- of 64 bits are natural numbers: no stream is long enough to fill one.
pub mod Bitmap
pub mod Counts
use wiretap_lib_rs.Base.{
  ℕ, zero, suc, ◌+◌, ◌-◌, ◌*◌, ◌/◌, ◌%◌, ◌^◌, bit_and, bit_or, Bool, not, Option, none, some, List,
  [], ◌∷◌, ◌++◌, ltb, ◌==◌, if◌then◌else◌, of_bool, replicate,
}
use wiretap_lib_rs.Base.Bytes.{at}

abbrev pub wrap_threshold : ℕ
wrap_threshold = 32768

abbrev pub seen_words : ℕ
seen_words = 1024

pub record SequenceTracker : Type 0 where
  pub expected : Option ℕ
  pub seen : List ℕ
  pub rx_count : ℕ
  pub drops : ℕ
  pub duplicates : ℕ
  pub out_of_order : ℕ
  pub gaps : List (ℕ × ℕ)

unfoldable pub new : SequenceTracker
new = record {
  expected = none;
  seen = replicate seen_words 0;
  rx_count = 0;
  drops = 0;
  duplicates = 0;
  out_of_order = 0;
  gaps = [];
}

-- `u16::wrapping_sub`.
abbrev pub wrapping_sub : ℕ → ℕ → ℕ
wrapping_sub a b = (a + (65536 - b)) % 65536

abbrev pub set_at : List ℕ → ℕ → ℕ → List ℕ
set_at [] i v = []
set_at (x ∷ xs) zero v = v ∷ xs
set_at (x ∷ xs) (suc i) v = x ∷ set_at xs i v

-- The bitmap afterwards, and whether the bit was already set.
unfoldable pub mark_seen : List ℕ → ℕ → Bool × List ℕ
mark_seen seen seq =
    let word = seq / 64 in
    let mask = 2 ^ (seq % 64) in
    (not (bit_and (at seen word) mask == 0), set_at seen word (bit_or (at seen word) mask))

-- What `track` does once the number is counted and marked.
unfoldable pub follow : SequenceTracker → ℕ → SequenceTracker
follow t seq = elim t.expected [
  | none ↦ record t { expected = some ((seq + 1) % 65536) }
  | some expected ↦
      if seq == expected
      then record t { expected = some ((expected + 1) % 65536) }
      else (let ahead = wrapping_sub seq expected in
          if ltb ahead wrap_threshold
          then record t {
            drops = t.drops + ahead;
            gaps = t.gaps ++ ((expected, seq) ∷ []);
            expected = some ((seq + 1) % 65536);
          }
          else record t { out_of_order = t.out_of_order + 1 })
]

unfoldable pub track : SequenceTracker → ℕ → SequenceTracker
unfolding mark_seen follow
track t seq =
    let marked = mark_seen t.seen seq in
    follow
      (record t {
        rx_count = t.rx_count + 1;
        duplicates = t.duplicates + of_bool marked.0;
        seen = marked.1;
      })
      seq

unfoldable pub track_all : SequenceTracker → List ℕ → SequenceTracker
track_all t [] = t
track_all t (seq ∷ seqs) = track_all (track t seq) seqs
