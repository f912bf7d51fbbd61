-- ===== src/Gvret/Server/Stream.antt =====
-- gvret.rs: the command loop of `Decoder`, round by round.
use wiretap_lib_rs.Base.{
  ℕ, suc, ◌+◌, ◌≤◌, ◌<◌, min, ◌≡◌, refl, ap, ◌∙◌, inl, inr, some, true, false, List, [], ◌∷◌, ◌++◌,
  arith, length, drop, drop-drop, length-append, length-drop, drop-append, get_or-append,
  Option-cases, Bool-cases, ◌==◌,
}
use wiretap_lib_rs.Base.Bytes.{at, u32_le_at-append, slice-append}
use wiretap_lib_rs.Base.Framing.{stop, go, progress, IsFraming}
use wiretap_lib_rs.Gvret.Ids.{cmd, op_frame}
use wiretap_lib_rs.Gvret.Server.{ClientCommand, take_transmit, resync, take_command, next_command}

take_transmit-append :
    (buf more rest : List ℕ) (c : ClientCommand)
    → take_transmit buf ≡ some (c, rest)
    → (take_transmit (buf ++ more) ≡ some (c, rest ++ more))
      × (length rest < length buf)
      × (rest ≡ drop (8 + at buf 7) buf)
unfolding take_transmit
take_transmit-append buf more rest c e = ground (
  arith,
  length-append buf more,
  get_or-append buf more 6 0,
  get_or-append buf more 7 0,
  u32_le_at-append buf more 2,
  slice-append buf more 8 (min (at buf 7) 8),
  drop-append (8 + at buf 7) buf more,
  length-drop (8 + at buf 7) buf,
)

-- How much a round takes off a buffer that begins with a header.
taken : List ℕ → ℕ
taken buf = elim (at buf 1 == op_frame) [ true ↦ 8 + at buf 7 | false ↦ 2 ]

take_command-append :
    (buf more rest : List ℕ) (out : List ClientCommand)
    → take_command buf ≡ go out rest
    → (take_command (buf ++ more) ≡ go out (rest ++ more))
      × (length rest < length buf)
      × (rest ≡ drop (taken buf) buf)
unfolding take_command taken
take_command-append buf more rest out e = elim (Option-cases (take_transmit buf)) [
  | inl wait ↦ ground (
    arith,
    wait,
    length-append buf more,
    get_or-append buf more 1 0,
    drop-append 2 buf more,
    length-drop 2 buf,
  )
  | inr ((c, rest'), found) ↦ ground (
    arith,
    found,
    length-append buf more,
    get_or-append buf more 1 0,
    drop-append 2 buf more,
    length-drop 2 buf,
    take_transmit-append buf more rest' c found,
  )
]

take_command_keeps : (buf keep : List ℕ) → take_command buf ≡ stop keep → keep ≡ buf
unfolding take_command
take_command_keeps buf keep e = ground arith

-- Skipping to the first header either finds one, which stays first, or drops everything.
resync-append :
    (buf more : List ℕ)
    → (length (resync buf) ≤ length buf) × (resync (resync buf ++ more) ≡ resync (buf ++ more))
unfolding resync
resync-append [] more = ground arith
resync-append (b ∷ bs) more = ground (arith, resync-append bs more)

resync_found :
    (buf more : List ℕ) → 0 < length (resync buf) → resync (buf ++ more) ≡ resync buf ++ more
unfolding resync
resync_found [] more h = absurd (omega arith)
resync_found (b ∷ bs) more h = ground (arith, resync_found bs more)

resync_suffix : (buf : List ℕ) → (n : ℕ) × (resync buf ≡ drop n buf)
unfolding resync
resync_suffix [] = (0, refl)
resync_suffix (b ∷ bs) = elim (Bool-cases (b == cmd)) [
  | inl here ↦ (0, ground (arith, here))
  | inr other ↦ let (n, e) = resync_suffix bs in (suc n, ground (arith, other, e))
]

-- A round that goes on has found a header.
go_found :
    (buf rest : List ℕ) (out : List ClientCommand) → take_command buf ≡ go out rest → 0 < length buf
unfolding take_command
go_found buf rest out e = ground arith

pub next_command_suffix :
    (buf rest : List ℕ) (out : List ClientCommand)
    → next_command buf ≡ go out rest
    → (n : ℕ) × (rest ≡ drop n buf)
unfolding next_command
next_command_suffix buf rest out e =
    let (n, found) = resync_suffix buf in
    (
      n + taken (resync buf),
      ground (
        arith,
        found,
        take_command-append (resync buf) [] rest out e,
        drop-drop n (taken (resync buf)) buf,
      ),
    )

pub next_command_kept :
    (buf keep : List ℕ) → next_command buf ≡ stop keep → (n : ℕ) × (keep ≡ drop n buf)
unfolding next_command
next_command_kept buf keep e =
    let (n, found) = resync_suffix buf in (n, take_command_keeps (resync buf) keep e ∙ found)

pub next_command-IsFraming : IsFraming next_command
unfolding next_command
next_command-IsFraming = record {
  at_end = unfold resync take_command in refl;
  shrinks = λ buf out rest e.
      omega (arith, resync-append buf [], take_command-append (resync buf) [] rest out e);
  extends = λ buf more out rest e.
      rw (resync_found buf more (go_found (resync buf) rest out e))
        (take_command-append (resync buf) more rest out e).0;
  resumes = λ buf more keep e.
      ap (λ start. progress (take_command start))
        (ap (λ k. resync (k ++ more)) (take_command_keeps (resync buf) keep e)
          ∙ (resync-append buf more).1);
}
