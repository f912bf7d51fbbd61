-- ===== src/GsUsb/Timing/Table.antt =====
-- gs_usb.rs: the table of timings for the common bitrates.
use wiretap_lib_rs.Base.{
  ℕ, ◌+◌, ◌*◌, ◌/◌, true, false, ◌≡◌, refl, ◌⊎◌, inl, inr, none, some, List, [], ◌∷◌, arith,
  Bool-cases, ==_iff, All, ◌==◌,
}
use mathlib.Core.Path.{subst}
use wiretap_lib_rs.GsUsb.Control.{Bittiming}
use wiretap_lib_rs.GsUsb.Timing.{bittiming_for_bitrate, contains, common_bitrates, fallback_fclk}

contains-All : (P : ℕ → Type 0) (xs : List ℕ) (x : ℕ) → All P xs → contains xs x ≡ true → P x
unfolding contains
contains-All P [] x all h = absurd (ground (arith, h))
contains-All P (y ∷ ys) x (p, all) h = elim (Bool-cases (y == x)) [
  | inl here ↦ subst P ((==_iff y x).0 here) p
  | inr other ↦ contains-All P ys x all (ground (arith, other))
]

-- The timing of the table at a rate takes 16 quanta a bit, and divides 48 MHz into it exactly.
DividesClock : ℕ → Type 0
DividesClock bitrate = bitrate * (fallback_fclk / (bitrate * 16) * 16) ≡ fallback_fclk

common-DividesClock : All DividesClock common_bitrates
unfolding DividesClock
common-DividesClock = omega arith

-- A rate of the table has its timing, and that divides 48 MHz into the rate exactly, over 16 quanta.
pub bittiming_for_bitrate_exact :
    (bitrate : ℕ)
    → ((contains common_bitrates bitrate ≡ false) × (bittiming_for_bitrate bitrate ≡ none))
      ⊎ ((t : Bittiming) × (bittiming_for_bitrate bitrate ≡ some t)
          × (bitrate * (t.brp * (1 + t.prop_seg + t.phase_seg1 + t.phase_seg2)) ≡ fallback_fclk))
unfolding bittiming_for_bitrate
bittiming_for_bitrate_exact bitrate = elim (Bool-cases (contains common_bitrates bitrate)) [
  | inl here ↦ inr (
    record {
      prop_seg = 0;
      phase_seg1 = 13;
      phase_seg2 = 2;
      sjw = 1;
      brp = fallback_fclk / (bitrate * 16);
    },
    rw here refl,
    unfold DividesClock in
        contains-All DividesClock common_bitrates bitrate common-DividesClock here,
  )
  | inr other ↦ inl (other, rw other refl)
]
