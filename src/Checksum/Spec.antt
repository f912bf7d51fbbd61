-- ===== src/Checksum/Spec.antt =====
-- spec.rs: a point in the space of checksum candidates, and the sweep of many over many frames. The
-- order in which the groups' hash map is gone through is a parameter.
pub mod Measure
pub mod Sorting
pub mod Grouping
pub mod Sweep
use wiretap_lib_rs.Base.{
  ℕ, zero, suc, ◌+◌, ◌-◌, min, Bool, true, false, ◌&&◌, Option, none, some, List, [], ◌∷◌, ◌++◌,
  map, length, take, drop, get_elem?, of_bool, ltb, leb, ◌==◌, if◌then◌else◌,
}
use wiretap_lib_rs.Base.Int.{ℤ, same_int}
use wiretap_lib_rs.Checksum.{
  ChecksumAlgorithm, xor, sum8, crc8, crc8_sae_j1850, crc8_autosar, crc8_maxim, crc8_cdma2000,
  crc8_dvb_s2, crc8_nissan, crc16_modbus, crc16_ccitt, calculate_checksum_simple,
}
use wiretap_lib_rs.Checksum.Frame.{resolve_byte_index, extract_checksum}

pub record ChecksumSpec : Type 0 where
  pub algorithm : ChecksumAlgorithm
  pub position : ℤ
  pub byte_length : ℕ
  pub big_endian : Bool
  pub calc_start_byte : ℤ
  pub calc_end_byte : ℤ

pub record ChecksumSpecResult : Type 0 where
  pub spec_index : ℕ
  pub match_count : ℕ
  pub total_count : ℕ

-- What the specs of a group share.
pub record Key : Type 0 where
  pub algorithm : ChecksumAlgorithm
  pub calc_start : ℤ
  pub calc_end : ℤ

abbrev pub key_of : ChecksumSpec → Key
key_of spec = record {
  algorithm = spec.algorithm;
  calc_start = spec.calc_start_byte;
  calc_end = spec.calc_end_byte;
}

-- The place of an algorithm among the variants.
abbrev pub discriminant : ChecksumAlgorithm → ℕ
discriminant xor = 0
discriminant sum8 = 1
discriminant crc8 = 2
discriminant crc8_sae_j1850 = 3
discriminant crc8_autosar = 4
discriminant crc8_maxim = 5
discriminant crc8_cdma2000 = 6
discriminant crc8_dvb_s2 = 7
discriminant crc8_nissan = 8
discriminant crc16_modbus = 9
discriminant crc16_ccitt = 10

unfoldable pub same_key : Key → Key → Bool
same_key a b =
    discriminant a.algorithm == discriminant b.algorithm
    && (same_int a.calc_start b.calc_start && same_int a.calc_end b.calc_end)

abbrev pub Groups : Type 0
Groups = List (Key × List ℕ)

-- `entry(key).or_default().push(idx)`.
unfoldable pub push_member : Key → ℕ → Groups → Groups
push_member key idx [] = (key, idx ∷ []) ∷ []
push_member key idx ((k, members) ∷ groups) =
    if same_key k key
    then (k, members ++ (idx ∷ [])) ∷ groups
    else (k, members) ∷ push_member key idx groups

-- The groups of the specs from an index on, added to those so far.
unfoldable pub group : Groups → ℕ → List ChecksumSpec → Groups
group groups idx [] = groups
group groups idx (spec ∷ specs) = group (push_member (key_of spec) idx groups) (idx + 1) specs

-- The value of a group over a frame, `none` where its range is degenerate.
unfoldable pub calculated : Key → List ℕ → Option ℕ
calculated key frame =
    let len = length frame in
    let start = min (resolve_byte_index key.calc_start len) len in
    let end = min (resolve_byte_index key.calc_end len) len in
    if ltb start end
    then some (calculate_checksum_simple key.algorithm (take (end - start) (drop start frame)))
    else none

-- One frame with its calculated value, added to the matches and the frames that fit so far.
unfoldable pub count_frame : ChecksumSpec → List ℕ → ℕ → ℕ × ℕ → ℕ × ℕ
count_frame spec frame calc counts =
    let len = length frame in
    if ltb len (resolve_byte_index spec.position len + spec.byte_length) then counts else (
      of_bool (extract_checksum frame spec.position spec.byte_length spec.big_endian == calc)
          + counts.0,
      1 + counts.1,
    )

-- The matches and the frames that fit, over frames with their calculated values.
unfoldable pub tally : ChecksumSpec → List (List ℕ) → List (Option ℕ) → ℕ × ℕ
unfolding count_frame
tally spec [] calcs = (0, 0)
tally spec (frame ∷ frames) [] = (0, 0)
tally spec (frame ∷ frames) (none ∷ calcs) = tally spec frames calcs
tally spec (frame ∷ frames) (some calc ∷ calcs) =
    count_frame spec frame calc (tally spec frames calcs)

-- The result of one spec, if a frame fits it.
unfoldable pub result_of : ℕ → ℕ × ℕ → List ChecksumSpecResult
result_of idx counts =
    if ltb 0 counts.1
    then record { spec_index = idx; match_count = counts.0; total_count = counts.1 } ∷ []
    else []

-- The results of a group's members.
unfoldable pub sweep_members :
    List (List ℕ) → List ChecksumSpec → List (Option ℕ) → List ℕ → List ChecksumSpecResult
sweep_members frames specs calcs [] = []
sweep_members frames specs calcs (idx ∷ members) =
    elim (get_elem? specs idx) [ none ↦ [] | some spec ↦ result_of idx (tally spec frames calcs) ]
    ++ sweep_members frames specs calcs members

unfoldable pub sweep_groups : List (List ℕ) → List ChecksumSpec → Groups → List ChecksumSpecResult
sweep_groups frames specs [] = []
sweep_groups frames specs ((key, members) ∷ groups) =
    sweep_members frames specs (map (calculated key) frames) members
    ++ sweep_groups frames specs groups

-- `sort_by_key`, which is stable.
unfoldable pub insert : ChecksumSpecResult → List ChecksumSpecResult → List ChecksumSpecResult
insert r [] = r ∷ []
insert r (x ∷ xs) = if leb r.spec_index x.spec_index then r ∷ x ∷ xs else x ∷ insert r xs

unfoldable pub sort_by_key : List ChecksumSpecResult → List ChecksumSpecResult
sort_by_key [] = []
sort_by_key (r ∷ rs) = insert r (sort_by_key rs)

unfoldable pub sweep_specs :
    (Groups → Groups) → List (List ℕ) → List ChecksumSpec → List ChecksumSpecResult
sweep_specs iterate frames specs =
    sort_by_key (sweep_groups frames specs (iterate (group [] 0 specs)))
