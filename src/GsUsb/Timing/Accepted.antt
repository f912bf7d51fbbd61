-- ===== src/GsUsb/Timing/Accepted.antt =====
-- gs_usb.rs: the timings that the search scores, beside the constraints of the device.
use wiretap_lib_rs.Base.{
  ℕ, ◌+◌, ◌-◌, ◌*◌, ◌/◌, ◌%◌, ◌≤◌, ◌<◌, false, ◌≡◌, ◌≢◌, refl, min, max, not, ◌&&◌, ◌||◌, ◌^◌, ap,
  ◌∙◌, ltb, inl, inr, Option, some, arith, ltb→lt, Bool-cases, All, ◌==◌,
}
use mathlib.Core.Path.{subst}
use native.Mathlib.Nat.{div-div-eq-div-mul, div-mul-le_self, div-le_self, mul-le-mul_left}
use wiretap_lib_rs.GsUsb.Control.{Bittiming, BittimingConstraints}
use wiretap_lib_rs.GsUsb.Timing.{
  SamplePoint, Scored, arrangement, arrangement_at, quanta_counts, abs_diff,
}

-- A timing that the device accepts for this clock, at most 1% off the bitrate.
pub record IsAccepted (fclk_can bitrate : ℕ) (c : BittimingConstraints) (t : Bittiming)
    : Type 0 where
  pub seg1_low : c.tseg1_min ≤ t.phase_seg1
  pub seg1_high : t.phase_seg1 ≤ c.tseg1_max
  pub seg2_low : c.tseg2_min ≤ t.phase_seg2
  pub seg2_high : t.phase_seg2 ≤ c.tseg2_max
  pub jump_low : 1 ≤ t.sjw
  pub jump_high : t.sjw ≤ c.sjw_max
  pub jump_seg1 : t.sjw ≤ t.phase_seg1
  pub jump_seg2 : t.sjw ≤ t.phase_seg2
  pub scale_low : c.brp_min ≤ t.brp
  pub scale_pos : 1 ≤ t.brp
  pub scale_high : t.brp ≤ c.brp_max
  pub scale_step : 1 < c.brp_inc → (t.brp - c.brp_min) % c.brp_inc ≡ 0
  pub no_prop_seg : t.prop_seg ≡ 0
  pub on_rate :
      abs_diff (fclk_can / (t.brp * (1 + t.phase_seg1 + t.phase_seg2))) bitrate * 100 ≤ bitrate

-- A timing of `tq` quanta as the search makes it: its scale is the clock over the quanta, rounded
-- down, and its first segment ends at the sample point.
pub record IsPlaced (sp : SamplePoint) (fclk_can bitrate tq : ℕ) (t : Bittiming) : Type 0 where
  pub scaled : t.brp ≡ fclk_can / (bitrate * tq)
  pub sampled : t.phase_seg1 ≡ sp.quanta tq - 1
  pub filled : 1 + t.phase_seg1 + t.phase_seg2 ≡ tq

pub each_count : (P : ℕ → Type 0) → ((tq : ℕ) → 1 ≤ tq → tq ≤ 25 → P tq) → All P quanta_counts
each_count P h = (
  h 25 (omega arith) (omega arith),
  (
    h 20 (omega arith) (omega arith),
    (
      h 16 (omega arith) (omega arith),
      (
        h 12 (omega arith) (omega arith),
        (
          h 10 (omega arith) (omega arith),
          (
            h 8 (omega arith) (omega arith),
            (
              h 6 (omega arith) (omega arith),
              (h 5 (omega arith) (omega arith), (h 4 (omega arith) (omega arith), tt)),
            ),
          ),
        ),
      ),
    ),
  ),
)

pub each_from :
    (P Q : ℕ → Type 0)
    → All P quanta_counts
    → ((tq : ℕ) → 1 ≤ tq → tq ≤ 25 → P tq → Q tq)
    → All Q quanta_counts
each_from P Q a h = (
  h 25 (omega arith) (omega arith) a.0,
  (
    h 20 (omega arith) (omega arith) a.1.0,
    (
      h 16 (omega arith) (omega arith) a.1.1.0,
      (
        h 12 (omega arith) (omega arith) a.1.1.1.0,
        (
          h 10 (omega arith) (omega arith) a.1.1.1.1.0,
          (
            h 8 (omega arith) (omega arith) a.1.1.1.1.1.0,
            (
              h 6 (omega arith) (omega arith) a.1.1.1.1.1.1.0,
              (
                h 5 (omega arith) (omega arith) a.1.1.1.1.1.1.1.0,
                (h 4 (omega arith) (omega arith) a.1.1.1.1.1.1.1.1.0, tt),
              ),
            ),
          ),
        ),
      ),
    ),
  ),
)

scaled_back : (f b t : ℕ) → 1 ≤ b → 1 ≤ t → f / (b * t) * t ≤ f
scaled_back f b t h k =
    subst (λ x. x * t ≤ f) (div-div-eq-div-mul f b t)
      (omega (arith, div-mul-le_self (f / b) t, div-le_self f b))

scale_fits :
    (brp low high : ℕ)
    → low ≤ brp
    → 1 ≤ brp
    → brp ≤ high
    → (ltb brp (max low 1) || ltb high brp) ≡ false
scale_fits brp low high h k l = ground arith

step_fits : (inc off : ℕ) → (1 < inc → off % inc ≡ 0) → (ltb 1 inc && not (off % inc == 0)) ≡ false
step_fits inc off h = elim (Bool-cases (ltb 1 inc)) [
  | inl e ↦ let met = h (ltb→lt 1 inc e) in ground (arith, met)
  | inr e ↦ ground arith
]

segments_fit :
    (a low1 high1 b low2 high2 : ℕ)
    → low1 ≤ a
    → a ≤ high1
    → low2 ≤ b
    → b ≤ high2
    → ((ltb a low1 || ltb high1 a) || (ltb b low2 || ltb high2 b)) ≡ false
segments_fit a low1 high1 b low2 high2 h k l m = ground arith

jump_fits :
    (a b most jump : ℕ)
    → 1 ≤ jump
    → jump ≤ most
    → jump ≤ a
    → jump ≤ b
    → ltb (min (min a b) most) 1 ≡ false
jump_fits a b most jump h k l m = ground arith

-- How far a timing is off the bitrate.
abbrev pub rate_error_of : ℕ → ℕ → Bittiming → ℕ
rate_error_of fclk_can bitrate t =
    abs_diff (fclk_can / (t.brp * (1 + t.phase_seg1 + t.phase_seg2))) bitrate

module _ (sp : SamplePoint) (fclk_can bitrate : ℕ) (c : BittimingConstraints) where
  -- An arrangement that the products of 32 bits do not wrap.
  abbrev pub exact : ℕ → Option (Scored sp fclk_can bitrate c)
  exact tq =
      let brp = fclk_can / (bitrate * tq) in
      arrangement_at sp fclk_can bitrate c brp (abs_diff (fclk_can / (brp * tq)) bitrate) tq

  quanta_used :
      (brp error tq : ℕ) (s : Scored sp fclk_can bitrate c)
      → arrangement_at sp fclk_can bitrate c brp error tq ≡ some s
      → 1 + s.timing.phase_seg1 + s.timing.phase_seg2 ≡ tq
  unfolding arrangement_at
  quanta_used brp error tq s e = ground arith

  scale_used :
      (brp error tq : ℕ) (s : Scored sp fclk_can bitrate c)
      → arrangement_at sp fclk_can bitrate c brp error tq ≡ some s
      → (s.timing.brp ≡ brp) × (s.error ≡ error) × (error * 100 ≤ bitrate)
  unfolding arrangement_at
  scale_used brp error tq s e = (ground arith, ground arith, ground arith)

  pub error_recorded :
      (tq : ℕ) (s : Scored sp fclk_can bitrate c)
      → exact tq ≡ some s
      → s.error ≡ rate_error_of fclk_can bitrate s.timing
  error_recorded tq s e =
      let brp = fclk_can / (bitrate * tq) in
      let error = abs_diff (fclk_can / (brp * tq)) bitrate in
      rw (quanta_used brp error tq s e, (scale_used brp error tq s e).0)
        ((scale_used brp error tq s e).1)

  pub exact-IsAccepted :
      (tq : ℕ) (s : Scored sp fclk_can bitrate c)
      → exact tq ≡ some s
      → IsAccepted fclk_can bitrate c s.timing
  unfolding arrangement_at
  exact-IsAccepted tq s e =
      let brp = fclk_can / (bitrate * tq) in
      let error = abs_diff (fclk_can / (brp * tq)) bitrate in
      record {
        seg1_low = ground arith;
        seg1_high = ground arith;
        seg2_low = ground arith;
        seg2_high = ground arith;
        jump_low = ground arith;
        jump_high = ground arith;
        jump_seg1 = ground arith;
        jump_seg2 = ground arith;
        scale_low = ground arith;
        scale_pos = ground arith;
        scale_high = ground arith;
        scale_step = λ h. ground arith;
        no_prop_seg = ground arith;
        on_rate =
            rw (quanta_used brp error tq s e, (scale_used brp error tq s e).0)
              ((scale_used brp error tq s e).2);
      }

  not_over : (error : ℕ) {x : ℕ} → error ≡ x → x * 100 ≤ bitrate → ltb bitrate (error * 100) ≡ false
  not_over error e h = ground arith

  -- A timing so placed that the device accepts is scored.
  pub accepted_scored :
      (tq : ℕ) (x : Bittiming)
      → IsPlaced sp fclk_can bitrate tq x
      → IsAccepted fclk_can bitrate c x
      → (s : Scored sp fclk_can bitrate c) × (exact tq ≡ some s)
        × (s.error ≡ rate_error_of fclk_can bitrate x)
  unfolding arrangement_at
  accepted_scored tq x p a =
      let brp = fclk_can / (bitrate * tq) in
      let error = abs_diff (fclk_can / (brp * tq)) bitrate in
      let seg1 = sp.quanta tq - 1 in
      let seg2 = tq - 1 - seg1 in
      let sjw = min (min seg1 seg2) c.sjw_max in
      let recorded : error ≡ rate_error_of fclk_can bitrate x = rw (p.scaled, p.filled) refl in
      let second : x.phase_seg2 ≡ seg2 = omega (arith, p.sampled, p.filled) in
      let scale =
        scale_fits brp c.brp_min c.brp_max (omega (arith, p.scaled, a.scale_low))
          (omega (arith, p.scaled, a.scale_pos)) (omega (arith, p.scaled, a.scale_high)) in
      let step =
        step_fits c.brp_inc (brp - c.brp_min)
          (subst (λ t. 1 < c.brp_inc → (t - c.brp_min) % c.brp_inc ≡ 0) p.scaled a.scale_step) in
      let near : ltb bitrate (error * 100) ≡ false = not_over error recorded a.on_rate in
      let segments =
        segments_fit seg1 c.tseg1_min c.tseg1_max seg2 c.tseg2_min c.tseg2_max
          (omega (arith, p.sampled, a.seg1_low)) (omega (arith, p.sampled, a.seg1_high))
          (omega (arith, second, a.seg2_low)) (omega (arith, second, a.seg2_high)) in
      let jump =
        jump_fits seg1 seg2 c.sjw_max x.sjw a.jump_low a.jump_high
          (omega (arith, p.sampled, a.jump_seg1)) (omega (arith, second, a.jump_seg2)) in
      (
        record {
          error = error;
          off_by = sp.drift seg1 tq;
          timing = record {
            prop_seg = 0;
            phase_seg1 = seg1;
            phase_seg2 = seg2;
            sjw = sjw;
            brp = brp;
          };
        },
        rw (scale) (rw (step) (rw (near) (rw (segments) (rw (jump) refl)))),
        recorded,
      )

  module _ (clock : fclk_can < 2 ^ 32) (rate : bitrate * 25 < 2 ^ 32)
      (some_rate : bitrate ≢ 0) where
    -- Under these bounds no product wraps.
    pub arrangement-exact :
        (tq : ℕ) → 1 ≤ tq → tq ≤ 25 → arrangement sp fclk_can bitrate c tq ≡ exact tq
    unfolding arrangement
    arrangement-exact tq low high =
        let quanta : bitrate * tq % 2 ^ 32 ≡ bitrate * tq =
          omega (arith, rate, mul-le-mul_left bitrate high) in
        let brp = fclk_can / (bitrate * tq) in
        let back : brp * tq % 2 ^ 32 ≡ brp * tq =
          omega (arith, clock, scaled_back fclk_can bitrate tq (ground (arith, some_rate)) low) in
        ap
          (λ w.
            arrangement_at sp fclk_can bitrate c (fclk_can / w)
              (abs_diff (fclk_can / (fclk_can / w * tq % 2 ^ 32)) bitrate) tq)
          quanta
        ∙ ap (λ w. arrangement_at sp fclk_can bitrate c brp (abs_diff (fclk_can / w) bitrate) tq)
            back
