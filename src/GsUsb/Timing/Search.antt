-- ===== src/GsUsb/Timing/Search.antt =====
-- gs_usb.rs: `calculate_bittiming` against the constraints of the device.
use wiretap_lib_rs.Base.{
  ℕ, ◌*◌, ◌≤◌, ◌<◌, ◌≡◌, ◌≢◌, ◌^◌, sym, ◌∙◌, ◌⊎◌, inl, inr, Option, none, some, List, [], ◌∷◌,
  arith, Option-cases, All,
}
use mathlib.Core.Path.{subst}
use native.Mathlib.Nat.{le_trans}
use wiretap_lib_rs.GsUsb.Control.{Bittiming, BittimingConstraints}
use wiretap_lib_rs.GsUsb.Timing.{
  SamplePoint, Scored, arrangement, scored_le, consider, search_best, calculate_bittiming,
  quanta_counts,
}
use wiretap_lib_rs.GsUsb.Timing.Accepted.{
  IsAccepted, IsPlaced, rate_error_of, each_count, each_from, exact, error_recorded,
  exact-IsAccepted, accepted_scored, arrangement-exact,
}

module _ (sp : SamplePoint) (fclk_can bitrate : ℕ) (c : BittimingConstraints) where
  consider-IsAccepted :
      (best : Option (Scored sp fclk_can bitrate c)) (tq : ℕ) (s : Scored sp fclk_can bitrate c)
      → consider sp fclk_can bitrate c best (arrangement sp fclk_can bitrate c tq) ≡ some s
      → (best ≡ some s) ⊎ (arrangement sp fclk_can bitrate c tq ≡ some s)
  unfolding consider
  consider-IsAccepted best tq s e = ground arith

  -- What the search returns, it was given or some arrangement is.
  search_best-found :
      (P : Scored sp fclk_can bitrate c → Type 0) (best : Option (Scored sp fclk_can bitrate c))
      (tqs : List ℕ) (s : Scored sp fclk_can bitrate c)
      → All
          (λ tq.
            (x : Scored sp fclk_can bitrate c)
            → arrangement sp fclk_can bitrate c tq ≡ some x
            → P x)
          tqs
      → search_best sp fclk_can bitrate c best tqs ≡ some s
      → (best ≡ some s) ⊎ P s
  unfolding search_best
  search_best-found P best [] s each e = inl e
  search_best-found P best (tq ∷ tqs) s (first, each) e =
      elim (search_best-found P
        (consider sp fclk_can bitrate c best (arrangement sp fclk_can bitrate c tq)) tqs s each e) [
          | inr accepted ↦ inr accepted
          | inl kept ↦ elim (consider-IsAccepted best tq s kept) [
            | inl old ↦ inl old
            | inr new ↦ inr (first s new)
          ]
        ]

  calculated :
      (t : Bittiming)
      → calculate_bittiming sp fclk_can bitrate c ≡ some t
      → (s : Scored sp fclk_can bitrate c) × (search_best sp fclk_can bitrate c none quanta_counts
          ≡ some s)
        × (s.timing ≡ t)
  unfolding calculate_bittiming
  calculated t e = elim (Option-cases (search_best sp fclk_can bitrate c none quanta_counts)) [
    | inl nothing ↦ absurd (ground (arith, nothing))
    | inr (s, found) ↦ (s, found, ground (arith, found))
  ]

  consider-le :
      (best next : Option (Scored sp fclk_can bitrate c)) (s : Scored sp fclk_can bitrate c)
      → consider sp fclk_can bitrate c best next ≡ some s
      → ((b : Scored sp fclk_can bitrate c) → best ≡ some b → s.error ≤ b.error)
        × ((x : Scored sp fclk_can bitrate c) → next ≡ some x → s.error ≤ x.error)
  unfolding consider scored_le
  consider-le best next s e = (λ b h. ground arith, λ x h. ground arith)

  consider_kept :
      (best next : Option (Scored sp fclk_can bitrate c))
      → consider sp fclk_can bitrate c best next ≡ none
      → ((b : Scored sp fclk_can bitrate c) × (best ≡ some b))
        ⊎ ((x : Scored sp fclk_can bitrate c) × (next ≡ some x))
      → ⊥
  unfolding consider
  consider_kept best next e (inl (b, h)) = ground arith
  consider_kept best next e (inr (x, h)) = ground arith

  search_best-le :
      (best : Option (Scored sp fclk_can bitrate c)) (tqs : List ℕ)
      (s : Scored sp fclk_can bitrate c)
      → search_best sp fclk_can bitrate c best tqs ≡ some s
      → ((b : Scored sp fclk_can bitrate c) → best ≡ some b → s.error ≤ b.error)
        × All
            (λ tq.
              (x : Scored sp fclk_can bitrate c)
              → arrangement sp fclk_can bitrate c tq ≡ some x
              → s.error ≤ x.error)
            tqs
  unfolding search_best
  search_best-le best [] s e = (λ b h. ground arith, tt)
  search_best-le best (tq ∷ tqs) s e =
      let next = arrangement sp fclk_can bitrate c tq in
      let now = consider sp fclk_can bitrate c best next in
      let (ahead, rest) = search_best-le now tqs s e in
      elim (Option-cases now) [
        | inl nothing ↦ (
          λ b h. absurd (consider_kept best next nothing (inl (b, h))),
          (λ x h. absurd (consider_kept best next nothing (inr (x, h))), rest),
        )
        | inr (m, mid) ↦
            let (old, new) = consider-le best next m mid in
            (
              λ b h. le_trans (ahead m mid) (old b h),
              (λ x h. le_trans (ahead m mid) (new x h), rest),
            )
      ]

  search_best-none :
      (best : Option (Scored sp fclk_can bitrate c)) (tqs : List ℕ)
      → search_best sp fclk_can bitrate c best tqs ≡ none
      → (best ≡ none) × All (λ tq. arrangement sp fclk_can bitrate c tq ≡ none) tqs
  unfolding search_best
  search_best-none best [] e = (e, tt)
  search_best-none best (tq ∷ tqs) e =
      let next = arrangement sp fclk_can bitrate c tq in
      let (now, rest) = search_best-none (consider sp fclk_can bitrate c best next) tqs e in
      (
        elim (Option-cases best) [
          | inl nothing ↦ nothing
          | inr (b, h) ↦ absurd (consider_kept best next now (inl (b, h)))
        ],
        (
          elim (Option-cases next) [
            | inl nothing ↦ nothing
            | inr (x, h) ↦ absurd (consider_kept best next now (inr (x, h)))
          ],
          rest,
        ),
      )

  module _ (clock : fclk_can < 2 ^ 32) (rate : bitrate * 25 < 2 ^ 32)
      (some_rate : bitrate ≢ 0) where
    scored_each :
        (P : Scored sp fclk_can bitrate c → Type 0)
        → ((tq : ℕ) (s : Scored sp fclk_can bitrate c)
            → exact sp fclk_can bitrate c tq ≡ some s
            → P s)
        → All
            (λ tq.
              (x : Scored sp fclk_can bitrate c)
              → arrangement sp fclk_can bitrate c tq ≡ some x
              → P x)
            quanta_counts
    scored_each P h =
        each_count
          (λ tq.
            (x : Scored sp fclk_can bitrate c)
            → arrangement sp fclk_can bitrate c tq ≡ some x
            → P x)
          (λ tq low high x e.
            h tq x
              (sym (arrangement-exact sp fclk_can bitrate c clock rate some_rate tq low high) ∙ e))

    -- What holds of every exact arrangement holds of the one found.
    found_one :
        (P : Scored sp fclk_can bitrate c → Type 0)
        → ((tq : ℕ) (s : Scored sp fclk_can bitrate c)
            → exact sp fclk_can bitrate c tq ≡ some s
            → P s)
        → (s : Scored sp fclk_can bitrate c)
        → search_best sp fclk_can bitrate c none quanta_counts ≡ some s
        → P s
    found_one P h s e = elim (search_best-found P none quanta_counts s (scored_each P h) e) [
      | inl empty ↦ cc
      | inr kept ↦ kept
    ]

    -- For a clock of 32 bits, and a bitrate that is not 0 and whose product with 25 fits them too: a
    -- timing that the search returns is one that the device accepts, and within 1% of the bitrate.
    pub calculate_bittiming-IsAccepted :
        (t : Bittiming)
        → calculate_bittiming sp fclk_can bitrate c ≡ some t
        → IsAccepted fclk_can bitrate c t
    calculate_bittiming-IsAccepted t e =
        let (s, found, same) = calculated t e in
        subst (IsAccepted fclk_can bitrate c) same (
          found_one (λ x. IsAccepted fclk_can bitrate c x.timing)
            (exact-IsAccepted sp fclk_can bitrate c) s found)

    -- For a clock of 32 bits, and a bitrate that is not 0 and whose product with 25 fits them too: of
    -- the timings that the search makes, whose scale is the clock over the quanta rounded down and
    -- whose first segment ends at the sample point, none that the device accepts, within 1% of the
    -- bitrate, is closer to it than the one returned.
    pub calculate_bittiming-least :
        (t : Bittiming)
        → calculate_bittiming sp fclk_can bitrate c ≡ some t
        → All
            (λ tq.
              (x : Bittiming)
              → IsPlaced sp fclk_can bitrate tq x
              → IsAccepted fclk_can bitrate c x
              → rate_error_of fclk_can bitrate t ≤ rate_error_of fclk_can bitrate x)
            quanta_counts
    calculate_bittiming-least t e =
        let (s, found, same) = calculated t e in
        let recorded =
          found_one (λ x. x.error ≡ rate_error_of fclk_can bitrate x.timing)
            (error_recorded sp fclk_can bitrate c) s found in
        let ahead = (search_best-le none quanta_counts s found).1 in
        rw (← same, ← recorded)
          (each_from
            (λ tq.
              (x : Scored sp fclk_can bitrate c)
              → arrangement sp fclk_can bitrate c tq ≡ some x
              → s.error ≤ x.error)
            (λ tq.
              (x : Bittiming)
              → IsPlaced sp fclk_can bitrate tq x
              → IsAccepted fclk_can bitrate c x
              → s.error ≤ rate_error_of fclk_can bitrate x)
            ahead
            (λ tq low high best x p a.
              let (scored, arranged, off) = accepted_scored sp fclk_can bitrate c tq x p a in
              subst (λ k. s.error ≤ k) off
                (best scored (
                  arrangement-exact sp fclk_can bitrate c clock rate some_rate tq low high
                  ∙ arranged))))

    -- For a clock of 32 bits that is not 0, and a bitrate that is not 0 and whose product with 25 fits
    -- 32 bits too: where the search fails, the device accepts none, within 1% of the bitrate, of the
    -- timings whose scale is the clock over the quanta rounded down and whose first segment ends at
    -- the sample point.
    pub calculate_bittiming-none :
        fclk_can ≢ 0
        → calculate_bittiming sp fclk_can bitrate c ≡ none
        → All
            (λ tq.
              (x : Bittiming)
              → IsPlaced sp fclk_can bitrate tq x
              → ¬ IsAccepted fclk_can bitrate c x)
            quanta_counts
    unfolding calculate_bittiming
    calculate_bittiming-none hf e =
        let empty =
          (search_best-none none quanta_counts
            (elim (Option-cases (search_best sp fclk_can bitrate c none quanta_counts)) [
              | inl nothing ↦ nothing
              | inr (s, found) ↦ absurd (ground (arith, found))
            ])).1 in
        each_from (λ tq. arrangement sp fclk_can bitrate c tq ≡ none)
          (λ tq.
            (x : Bittiming) → IsPlaced sp fclk_can bitrate tq x → ¬ IsAccepted fclk_can bitrate c x)
          empty
          (λ tq low high passed x p a.
            let (scored, arranged, off) = accepted_scored sp fclk_can bitrate c tq x p a in
            let clash : none ≡ some scored =
              sym passed
              ∙ arrangement-exact sp fclk_can bitrate c clock rate some_rate tq low high
              ∙ arranged in
            cc)
