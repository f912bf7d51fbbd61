-- ===== src/GsUsb/Control/Laws.antt =====
-- gs_usb.rs: the control structures against the words they are made of.
use wiretap_lib_rs.Base.{ℕ, ◌≤◌, ◌≡◌, refl, some, List, [], ◌∷◌, arith, length, drop, get_or}
use wiretap_lib_rs.Base.Bytes.{IsU32, u32_le_round}
use wiretap_lib_rs.GsUsb.Control.{
  words, read_words, constraints_from_words, BtConst, bt_const_from_bytes, BtConstExtended,
  bt_const_extended_from_bytes, Bittiming, bittiming_to_bytes, Mode, mode_to_bytes,
}

-- The five words that a device reads out of a bit timing are its fields, in order.
pub words-bittiming_to_bytes :
    (t : Bittiming)
    → IsU32 t.prop_seg × IsU32 t.phase_seg1 × IsU32 t.phase_seg2 × IsU32 t.sjw × IsU32 t.brp
    → words 5 (bittiming_to_bytes t)
      ≡ some (t.prop_seg ∷ t.phase_seg1 ∷ t.phase_seg2 ∷ t.sjw ∷ t.brp ∷ [])
unfolding words bittiming_to_bytes
words-bittiming_to_bytes t (a, b, c, d, e) = ground (
  arith,
  u32_le_round t.prop_seg a,
  u32_le_round t.phase_seg1 b,
  u32_le_round t.phase_seg2 c,
  u32_le_round t.sjw d,
  u32_le_round t.brp e,
)

-- The two words of a channel mode.
pub words-mode_to_bytes :
    (m : Mode)
    → IsU32 m.mode
    → IsU32 m.flags
    → words 2 (mode_to_bytes m) ≡ some (m.mode ∷ m.flags ∷ [])
unfolding words mode_to_bytes
words-mode_to_bytes m a b = ground (arith, u32_le_round m.mode a, u32_le_round m.flags b)

-- The step of the prescaler is never 0, so no caller divides by it in vain.
constraints_step : (w : List ℕ) → 1 ≤ (constraints_from_words w).brp_inc
unfolding constraints_from_words
constraints_step w = ground arith

-- A reply of at least 72 bytes reads both ways, and its first 40 bytes say the same in both: the
-- features, the clock and the nominal constraints. The prescaler's step is never 0 in either phase.
pub bt_const_extended_agrees :
    (bytes : List ℕ)
    → 72 ≤ length bytes
    → (c : BtConst) × (e : BtConstExtended) × (bt_const_from_bytes bytes ≡ some c)
      × (bt_const_extended_from_bytes bytes ≡ some e)
      × (c.feature ≡ e.feature)
      × (c.fclk_can ≡ e.fclk_can)
      × (c.nominal ≡ e.nominal)
      × (1 ≤ e.nominal.brp_inc)
      × (1 ≤ e.data_phase.brp_inc)
unfolding bt_const_from_bytes bt_const_extended_from_bytes
bt_const_extended_agrees bytes h =
    let short = read_words 10 0 bytes in
    let long = read_words 18 0 bytes in
    (
      record {
        feature = get_or short 0 0;
        fclk_can = get_or short 1 0;
        nominal = constraints_from_words (drop 2 short);
      },
      record {
        feature = get_or long 0 0;
        fclk_can = get_or long 1 0;
        nominal = constraints_from_words (drop 2 long);
        data_phase = constraints_from_words (drop 10 long);
      },
      ground arith,
      ground arith,
      refl,
      refl,
      refl,
      constraints_step (drop 2 long),
      constraints_step (drop 10 long),
    )
