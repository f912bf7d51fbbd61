-- ===== src/Decode/Time.antt =====
-- lib.rs: a unix timestamp as a civil date and time, by whole eras of 400 years from March to
-- February.
pub mod Days
use wiretap_lib_rs.Base.{ℕ, ◌+◌, ◌-◌, ◌*◌, ◌/◌, ◌%◌, ltb, leb, if◌then◌else◌}
use wiretap_lib_rs.Base.Int.{
  ℤ, pos, negsuc, add_ℤ, sub_ℤ, scale, div_trunc, div_euclid, rem_euclid, natural,
}

pub record Civil : Type 0 where
  pub year : ℤ
  pub month : ℕ
  pub day : ℕ
  pub hour : ℕ
  pub minute : ℕ
  pub second : ℕ

unfoldable pub era : ℤ → ℤ
era (pos z) = div_trunc (pos z) 146_097
era (negsuc z) = div_trunc (sub_ℤ (negsuc z) (pos 146_096)) 146_097

-- The days of an era are counted from 0.
unfoldable pub day_of_era : ℤ → ℕ
day_of_era z = natural (sub_ℤ z (scale (era z) 146_097))

abbrev pub year_of_era : ℕ → ℕ
year_of_era doe = (doe - doe / 1460 + doe / 36524 - doe / 146_096) / 365

abbrev pub day_of_year : ℕ → ℕ
day_of_year doe = let yoe = year_of_era doe in doe - (365 * yoe + yoe / 4 - yoe / 100)

abbrev pub month_from_march : ℕ → ℕ
month_from_march doy = (5 * doy + 2) / 153

abbrev pub calendar_month : ℕ → ℕ
calendar_month mp = if ltb mp 10 then mp + 3 else mp - 9

unfoldable pub civil_from_unix : ℤ → Civil
civil_from_unix secs =
    let rem = rem_euclid secs 86_400 in
    let z = add_ℤ (div_euclid secs 86_400) (pos 719_468) in
    let doe = day_of_era z in
    let y = add_ℤ (pos (year_of_era doe)) (scale (era z) 400) in
    let doy = day_of_year doe in
    let mp = month_from_march doy in
    let m = calendar_month mp in
    record {
      year = if leb m 2 then add_ℤ y (pos 1) else y;
      month = m;
      day = doy - (153 * mp + 2) / 5 + 1;
      hour = rem / 3600;
      minute = rem % 3600 / 60;
      second = rem % 60;
    }
