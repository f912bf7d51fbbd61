-- ===== src/GsUsb/Timing.antt =====
-- gs_usb.rs: bit timing. The sample point is an `f32`; what the search does with it is a parameter.
mod Table
pub mod Accepted
pub mod Search
use wiretap_lib_rs.Base.{
  ℕ, ◌+◌, ◌-◌, ◌*◌, ◌/◌, ◌%◌, ◌^◌, min, max, Bool, true, false, not, ◌&&◌, ◌||◌, Option, none, some,
  List, [], ◌∷◌, ltb, leb, ◌==◌, if◌then◌else◌,
}
use wiretap_lib_rs.GsUsb.Control.{Bittiming, BittimingConstraints}
use mathlib.Core.Option

abbrev pub fallback_fclk : ℕ
fallback_fclk = 48_000_000

abbrev pub fallback_tq : ℕ
fallback_tq = 16

abbrev pub common_bitrates : List ℕ
common_bitrates =
    10_000 ∷ 20_000 ∷ 50_000 ∷ 100_000 ∷ 125_000 ∷ 250_000 ∷ 500_000 ∷ 750_000 ∷ 1_000_000 ∷ []

unfoldable pub contains : List ℕ → ℕ → Bool
contains [] x = false
contains (y ∷ ys) x = y == x || contains ys x

unfoldable pub bittiming_for_bitrate : ℕ → Option Bittiming
bittiming_for_bitrate bitrate =
    if contains common_bitrates bitrate
    then some (record {
      prop_seg = 0;
      phase_seg1 = 13;
      phase_seg2 = 2;
      sjw = 1;
      brp = fallback_fclk / (bitrate * fallback_tq);
    })
    else none

abbrev pub permissive_constraints : BittimingConstraints
permissive_constraints = record {
  tseg1_min = 1;
  tseg1_max = 256;
  tseg2_min = 1;
  tseg2_max = 128;
  sjw_max = 128;
  brp_min = 1;
  brp_max = 1024;
  brp_inc = 1;
}

-- What the search reads off a sample point: how many of `tq` quanta come before it, rounded, how
-- far a first segment of `seg1` out of `tq` lands from it, and `<=` on such distances.
pub record SamplePoint : Type 1 where
  pub Drift : Type 0
  pub quanta : ℕ → ℕ
  pub drift : ℕ → ℕ → Drift
  pub drift_le : Drift → Drift → Bool

abbrev pub abs_diff : ℕ → ℕ → ℕ
abs_diff a b = (a - b) + (b - a)

abbrev pub quanta_counts : List ℕ
quanta_counts = 25 ∷ 20 ∷ 16 ∷ 12 ∷ 10 ∷ 8 ∷ 6 ∷ 5 ∷ 4 ∷ []

module _ (sample_point : SamplePoint) (fclk_can bitrate : ℕ) (c : BittimingConstraints) where
  open sample_point use {Drift, quanta, drift, drift_le}

  pub record Scored : Type 0 where
    pub error : ℕ
    pub off_by : Drift
    pub timing : Bittiming

  -- The arrangement of `tq` quanta at a scale and its error, if the loop does not `continue` past it.
  unfoldable pub arrangement_at : ℕ → ℕ → ℕ → Option Scored
  arrangement_at brp error tq =
      let seg1 = quanta tq - 1 in
      let seg2 = tq - 1 - seg1 in
      let sjw = min (min seg1 seg2) c.sjw_max in
      if ltb brp (max c.brp_min 1) || ltb c.brp_max brp
      then none
      else if ltb 1 c.brp_inc && not ((brp - c.brp_min) % c.brp_inc == 0)
      then none
      else if ltb bitrate (error * 100)
      then none
      else if (ltb seg1 c.tseg1_min || ltb c.tseg1_max seg1)
          || (ltb seg2 c.tseg2_min || ltb c.tseg2_max seg2)
      then none
      else if ltb sjw 1
      then none
      else some (record {
        error = error;
        off_by = drift seg1 tq;
        timing = record {
          prop_seg = 0;
          phase_seg1 = seg1;
          phase_seg2 = seg2;
          sjw = sjw;
          brp = brp;
        };
      })

  -- The products are of 32 bits and wrap. One that wraps to 0 makes the code panic, and is an
  -- arrangement passed by here.
  unfoldable pub arrangement : ℕ → Option Scored
  unfolding arrangement_at
  arrangement tq =
      let brp = fclk_can / (bitrate * tq % 2 ^ 32) in
      arrangement_at brp (abs_diff (fclk_can / (brp * tq % 2 ^ 32)) bitrate) tq

  -- `(e, d) <= (error, drift)`.
  unfoldable pub scored_le : Scored → Scored → Bool
  scored_le a b = ltb a.error b.error || (a.error == b.error && drift_le a.off_by b.off_by)

  -- The best so far, after an arrangement.
  unfoldable pub consider : Option Scored → Option Scored → Option Scored
  consider best none = best
  consider none (some next) = some next
  consider (some best) (some next) = if scored_le best next then some best else some next

  unfoldable pub search_best : Option Scored → List ℕ → Option Scored
  search_best best [] = best
  search_best best (tq ∷ rest) = search_best (consider best (arrangement tq)) rest

  unfoldable pub calculate_bittiming : Option Bittiming
  calculate_bittiming =
      if bitrate == 0 || fclk_can == 0
      then none
      else Option.map (λ s. s.timing) (search_best none quanta_counts)
