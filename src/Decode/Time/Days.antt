-- ===== src/Decode/Time/Days.antt =====
-- lib.rs: that a civil date and time is that of its timestamp.
use wiretap_lib_rs.Base.{
  ℕ, ◌+◌, ◌-◌, ◌*◌, ◌/◌, ◌%◌, ◌≤◌, ◌<◌, ◌≡◌, refl, ap, ◌∙◌, arith, ltb→lt, ltb, leb, if◌then◌else◌,
  Bool-cases, ◌⊎◌, inl, inr, Bool, true, false, ◌==◌, ◌&&◌, ◌||◌,
}
use mathlib.Core.Path.{subst}
use wiretap_lib_rs.Base.Int.{pos, natural, sub_ℕ-pos}
use wiretap_lib_rs.Decode.Time.{
  Civil, era, day_of_era, year_of_era, day_of_year, month_from_march, calendar_month,
  civil_from_unix,
}

-- The days from the 1st of March of the year 0 to a date: a year that begins in March has 365 days,
-- one more in every fourth, but not in every hundredth unless in every four hundredth.
abbrev pub days_to : ℕ → ℕ → ℕ → ℕ
days_to year month day =
    let y = if leb month 2 then year - 1 else year in
    let mp = if leb month 2 then month + 9 else month - 3 in
    365 * y + y / 4 - y / 100 + y / 400 + (153 * mp + 2) / 5 + day - 1

-- A year of 366 days.
abbrev pub is_leap : ℕ → Bool
is_leap year = year % 4 == 0 && (ltb 0 (year % 100) || year % 400 == 0)

abbrev pub month_length : ℕ → ℕ → ℕ
month_length year month =
    if month == 2
    then (if is_leap year then 29 else 28)
    else if month == 4 || month == 6 || month == 9 || month == 11
    then 30
    else 31

-- A civil time of a year that is not negative, whose fields are in range and which is so many
-- seconds after the start of 1970.
abbrev pub IsTimeOf : ℕ → Civil → Type 0
IsTimeOf secs c =
    (year : ℕ) × (c.year ≡ pos year)
    × (1 ≤ c.month)
    × (c.month ≤ 12)
    × (1 ≤ c.day)
    × (c.day ≤ month_length year c.month)
    × (c.hour < 24)
    × (c.minute < 60)
    × (c.second < 60)
    × ((days_to year c.month c.day) * 86_400 + c.hour * 3600 + c.minute * 60 + c.second
        ≡ 719_468 * 86_400 + secs)

-- The date that a day since March of the year 0 has.
days_to_date :
    (e doe yoe doy mp : ℕ)
    → doe < 146_097
    → yoe ≡ year_of_era doe
    → doy ≡ doe - (365 * yoe + yoe / 4 - yoe / 100)
    → mp ≡ month_from_march doy
    → 365 * (yoe + e * 400)
        + (yoe + e * 400) / 4
        - (yoe + e * 400) / 100
        + (yoe + e * 400) / 400
        + (153 * mp + 2) / 5
        + (doy - (153 * mp + 2) / 5 + 1)
        - 1
      ≡ doe + e * 146_097
days_to_date e doe yoe doy mp h y d m = omega arith

day_of_era-pos : (n : ℕ) → day_of_era (pos n) ≡ n % 146_097
unfolding day_of_era era
day_of_era-pos n = ap natural (sub_ℕ-pos n (n / 146_097 * 146_097) (omega arith)) ∙ omega arith

next_year : (b : Bool) (y : ℕ) → (if b then pos (y + 1) else pos y) ≡ pos (if b then y + 1 else y)
next_year true y = refl
next_year false y = refl

-- The month before March belongs to the year that began in the March before.
days_to_from_march :
    (y mp d : ℕ)
    → mp < 12
    → let m = calendar_month mp in
      days_to (if leb m 2 then y + 1 else y) m d
      ≡ 365 * y + y / 4 - y / 100 + y / 400 + (153 * mp + 2) / 5 + d - 1
days_to_from_march y mp d h = ground arith

months_in_range : (mp : ℕ) → mp < 12 → (1 ≤ calendar_month mp) × (calendar_month mp ≤ 12)
months_in_range mp h = ground arith

month_of_day : (doe doy : ℕ) → doe < 146_097 → doy ≡ day_of_year doe → month_from_march doy < 12
month_of_day doe doy h e = omega arith

seconds_total :
    (secs days : ℕ)
    → days ≡ secs / 86_400 + 719_468
    → days * 86_400
        + secs % 86_400 / 3600 * 3600
        + secs % 86_400 % 3600 / 60 * 60
        + secs % 86_400 % 60
      ≡ 719_468 * 86_400 + secs
seconds_total secs days h = omega arith

leap_if : (year : ℕ) → year % 4 ≡ 0 → (year % 100 ≡ 0 → year % 400 ≡ 0) → is_leap year ≡ true
leap_if year h k = elim (Bool-cases (ltb 0 (year % 100))) [
  | inl within ↦ ground arith
  | inr hundredth ↦ let four_hundredth = k (ground arith) in ground arith
]

leap_year_end :
    (y e : ℕ)
    → y < 400
    → y / 4 - y / 100 + y / 400 + 1 ≤ (y + 1) / 4 - (y + 1) / 100 + (y + 1) / 400
    → is_leap (y + e * 400 + 1) ≡ true
leap_year_end y e h k =
    let fourth : (y + e * 400 + 1) % 4 ≡ 0 = omega arith in
    let not_hundredth : ((y + e * 400 + 1) % 100 ≡ 0) → (y + e * 400 + 1) % 400 ≡ 0 =
      λ z. omega arith in
    leap_if (y + e * 400 + 1) fourth not_hundredth

february :
    (doe yoe doy : ℕ)
    → doe < 146_097
    → yoe ≡ year_of_era doe
    → doy ≡ doe - (365 * yoe + yoe / 4 - yoe / 100)
    → 365 ≤ doy
    → yoe / 4 - yoe / 100 + yoe / 400 + 1 ≤ (yoe + 1) / 4 - (yoe + 1) / 100 + (yoe + 1) / 400
february doe yoe doy h y d k = omega arith

longer_months :
    (doy mp year : ℕ)
    → doy ≤ 365
    → mp ≡ month_from_march doy
    → mp < 11
    → doy - (153 * mp + 2) / 5 + 1 ≤ month_length year (calendar_month mp)
longer_months doy mp year h m k = ground arith

february_length :
    (b : Bool) (d : ℕ) → (d ≤ 28) ⊎ ((d ≤ 29) × (b ≡ true)) → d ≤ (if b then 29 else 28)
february_length true d (inl a) = omega arith
february_length false d (inl a) = a
february_length true d (inr (a, b)) = a
february_length false d (inr (a, b)) = ground arith

-- The day of the year, of a date in an era, is a day of its month.
before_last : (doy : ℕ) → doy < 365 → doy - 337 + 1 ≤ 28
before_last doy h = omega arith

last_month :
    (doe : ℕ)
    → doe < 146_097
    → 11 ≤ month_from_march (day_of_year doe)
    → 11 ≡ month_from_march (day_of_year doe)
last_month doe h k = omega arith

day_in_month :
    (e doe : ℕ)
    → doe < 146_097
    → let yoe = year_of_era doe in
      let doy = day_of_year doe in
      let mp = month_from_march doy in
      let m = calendar_month mp in
      doy - (153 * mp + 2) / 5 + 1
      ≤ month_length (if leb m 2 then yoe + e * 400 + 1 else yoe + e * 400) m
day_in_month e doe h =
    let yoe = year_of_era doe in
    let doy = day_of_year doe in
    let mp = month_from_march doy in
    elim (Bool-cases (ltb mp 11)) [
      | inl longer ↦
          longer_months doy mp
            (if leb (calendar_month mp) 2 then yoe + e * 400 + 1 else yoe + e * 400) (omega arith)
            refl (ltb→lt mp 11 longer)
      | inr last ↦
          let eleven : 11 ≡ mp = last_month doe h (ground arith) in
          subst
            (λ t.
              doy - (153 * t + 2) / 5 + 1
              ≤ month_length (if leb (calendar_month t) 2 then yoe + e * 400 + 1 else yoe + e * 400)
                  (calendar_month t))
            eleven
            (february_length (is_leap (yoe + e * 400 + 1)) (doy - 337 + 1)
              (elim (Bool-cases (ltb doy 365)) [
                | inl common ↦ inl (before_last doy (ltb→lt doy 365 common))
                | inr leap ↦ inr (
                  omega arith,
                  leap_year_end yoe e (omega arith)
                      (february doe yoe doy h refl refl (ground arith)),
                )
              ]))
    ]

-- The civil date and time of a timestamp that is not negative has its fields in range, the day
-- within its month, and it is so many seconds after the start of 1970 by the rule of leap years.
pub civil_from_unix-IsTimeOf : (secs : ℕ) → IsTimeOf secs (civil_from_unix (pos secs))
unfolding civil_from_unix era
civil_from_unix-IsTimeOf secs =
    let n = secs / 86_400 + 719_468 in
    let e = n / 146_097 in
    let doe = day_of_era (pos n) in
    let yoe = year_of_era doe in
    let doy = day_of_year doe in
    let mp = month_from_march doy in
    let m = calendar_month mp in
    let d = doy - (153 * mp + 2) / 5 + 1 in
    let doe_is : doe ≡ n % 146_097 = day_of_era-pos n in
    let short : doe < 146_097 = omega arith in
    let low : mp < 12 = month_of_day doe doy short refl in
    (
      if leb m 2 then yoe + e * 400 + 1 else yoe + e * 400,
      next_year (leb m 2) (yoe + e * 400),
      (months_in_range mp low).0,
      (months_in_range mp low).1,
      omega arith,
      day_in_month e doe short,
      omega arith,
      omega arith,
      omega arith,
      seconds_total secs (days_to (if leb m 2 then yoe + e * 400 + 1 else yoe + e * 400) m d) (
          days_to_from_march (yoe + e * 400) mp d low
          ∙ days_to_date e doe yoe doy mp short refl refl refl
          ∙ omega arith),
    )
