-- ===== src/Store/Cold/Day/Calendar.antt =====
-- On `civil_date` of crates/store/src/cold/store.rs: its dates and the Gregorian calendar.
use percept.Prelude.{
  ℕ, zero, suc, ◌+◌, ◌-◌, ◌*◌, ◌/◌, ◌%◌, ◌^◌, ◌≤◌, ◌<◌, Bool, true, if◌then◌else◌, ◌==◌, leb, ◌&&◌,
  ◌||◌, not, ◌≡◌, refl, ap, ap₂, ◌∙◌, subst, arith,
}
use percept.Prelude.Int.{pos, as_u64, ◌-ℤ◌, ◌+ℤ◌}
use percept.Store.Cold.Day.{
  Date, era_of, date_in_era, from_march, as_i32_or_zero, times, year_of_era, day_of_year,
  month_from_march, day_of_month, month_of, civil_date,
}

abbrev pub is_leap : ℕ → Bool
is_leap y = y % 4 == 0 && (not (y % 100 == 0) || y % 400 == 0)

-- The days of a month of a common year.
abbrev pub common : ℕ → ℕ
common m = if m == 2 then 28 else if m == 4 || m == 6 || m == 9 || m == 11 then 30 else 31

abbrev pub days_in_month : ℕ → ℕ → ℕ
days_in_month y m = if is_leap y && m == 2 then 29 else common m

-- The days of a year before a month.
abbrev pub days_before_month : ℕ → ℕ → ℕ
days_before_month y zero = 0
days_before_month y (suc zero) = 0
days_before_month y (suc (suc m)) = days_before_month y (suc m) + days_in_month y (suc m)

-- The days from 0001-01-01 to the first day of a year.
abbrev pub days_before_year : ℕ → ℕ
days_before_year y = 365 * (y - 1) + (y - 1) / 4 - (y - 1) / 100 + (y - 1) / 400

year_of_era-lt : (doe : ℕ) → doe < 146_097 → year_of_era doe < 400
year_of_era-lt doe h = omega (arith, h)

day_of_year_lem :
    (doe : ℕ)
    → doe < 146_097
    → let yoe = year_of_era doe in doe ≡ 365 * yoe + yoe / 4 - yoe / 100 + day_of_year doe
day_of_year_lem doe h = omega (arith, h)

day_of_year-le : (doe : ℕ) → doe < 146_097 → day_of_year doe ≤ 365
day_of_year-le doe h = omega (arith, h)

is_leap-last_day :
    (doe : ℕ) → doe < 146_097 → day_of_year doe ≡ 365 → is_leap (suc (year_of_era doe)) ≡ true
is_leap-last_day doe h e = ground arith

days_before_year-era :
    (yoe era : ℕ)
    → yoe < 400
    → days_before_year (yoe + era * 400 + 1) ≡ 146_097 * era + 365 * yoe + yoe / 4 - yoe / 100
days_before_year-era yoe era h = omega arith

days_before_year_suc :
    (y : ℕ)
    → days_before_year (y + 2) ≡ days_before_year (y + 1) + 365 + (if is_leap (y + 1) then 1 else 0)
days_before_year_suc y = ground arith

is_leap-era : (y era : ℕ) → is_leap (y + era * 400) ≡ is_leap y
is_leap-era y era = ground arith

abbrev civil_year : ℕ → ℕ → ℕ
civil_year y m = if leb m 2 then y + 1 else y

-- A month and a day in the year that began with the March of `y`, for the day `doy` of that year.
abbrev Fitting : ℕ → ℕ → ℕ → ℕ → Type 0
Fitting y m d doy =
    (1 ≤ m)
    × (m ≤ 12)
    × (1 ≤ d)
    × (d ≤ days_in_month (civil_year y m) m)
    × (days_before_year (civil_year y m) + days_before_month (civil_year y m) m + d + 306
        ≡ days_before_year (y + 1) + doy + 1)

in_month-Fitting :
    (y doy mp : ℕ)
    → mp ≤ 11
    → 153 * mp ≤ 5 * doy + 2
    → 5 * doy + 2 < 153 * mp + 153
    → doy ≤ 365
    → (doy ≡ 365 → is_leap (y + 2) ≡ true)
    → Fitting (y + 1) (month_of mp) (doy - (153 * mp + 2) / 5 + 1) doy
in_month-Fitting y doy zero h a b c e = let l = days_before_year_suc y in ground (arith, l)
in_month-Fitting y doy (suc zero) h a b c e = let l = days_before_year_suc y in ground (arith, l)
in_month-Fitting y doy (suc (suc zero)) h a b c e =
    let l = days_before_year_suc y in ground (arith, l)
in_month-Fitting y doy (suc (suc (suc zero))) h a b c e =
    let l = days_before_year_suc y in ground (arith, l)
in_month-Fitting y doy (suc (suc (suc (suc zero)))) h a b c e =
    let l = days_before_year_suc y in ground (arith, l)
in_month-Fitting y doy (suc (suc (suc (suc (suc zero))))) h a b c e =
    let l = days_before_year_suc y in ground (arith, l)
in_month-Fitting y doy (suc (suc (suc (suc (suc (suc zero)))))) h a b c e =
    let l = days_before_year_suc y in ground (arith, l)
in_month-Fitting y doy (suc (suc (suc (suc (suc (suc (suc zero))))))) h a b c e =
    let l = days_before_year_suc y in ground (arith, l)
in_month-Fitting y doy (suc (suc (suc (suc (suc (suc (suc (suc zero)))))))) h a b c e =
    let l = days_before_year_suc y in ground (arith, l)
in_month-Fitting y doy (suc (suc (suc (suc (suc (suc (suc (suc (suc zero))))))))) h a b c e =
    let l = days_before_year_suc y in ground (arith, l)
in_month-Fitting y doy (suc (suc (suc (suc (suc (suc (suc (suc (suc (suc zero)))))))))) h a b c e =
    let l = days_before_year_suc y in ground (arith, l)
in_month-Fitting y doy (suc (suc (suc (suc (suc (suc (suc (suc (suc (suc (suc zero))))))))))) h a b
      c e =
    let l = days_before_year_suc y in ground (arith, l)
in_month-Fitting y doy (suc (suc (suc (suc (suc (suc (suc (suc (suc (suc (suc (suc mp)))))))))))) h
      a b c e =
    absurd (omega arith)

in_era-Fitting :
    (y doe : ℕ)
    → doe < 146_097
    → (day_of_year doe ≡ 365 → is_leap (y + 2) ≡ true)
    → let doy = day_of_year doe in
      Fitting (y + 1) (month_of (month_from_march doy)) (day_of_month doy) doy
in_era-Fitting y doe h e =
    let doy = day_of_year doe in
    let b : doy ≤ 365 = day_of_year-le doe h in
    in_month-Fitting y doy (month_from_march doy) (omega (arith, b)) (omega arith) (omega arith) b e

as_i32_or_zero-small : (y : ℕ) → y < 2 ^ 31 → as_i32_or_zero (pos y) ≡ pos y
as_i32_or_zero-small y h = ground arith

from_march-pos :
    (n : ℕ) → n < 2 ^ 63 → from_march (pos n) ≡ date_in_era (pos (n / 146_097)) (n % 146_097)
unfolding ◌-ℤ◌ as_u64
from_march-pos n h = ap₂ date_in_era era doe
  where
    era : era_of (pos n) ≡ pos (n / 146_097)
    era = ground arith

    doe : as_u64 (pos n -ℤ times (era_of (pos n)) 146_097) ≡ n % 146_097
    doe = rw era (ground arith)

shifted : (n : ℕ) → pos n +ℤ pos 719_468 ≡ pos (n + 719_468)
unfolding ◌+ℤ◌
shifted n = ground arith

in_year :
    (yoe era m : ℕ)
    → (if leb m 2
        then (pos yoe +ℤ times (pos era) 400) +ℤ pos 1
        else pos yoe +ℤ times (pos era) 400)
      ≡ pos (civil_year (yoe + era * 400) m)
unfolding ◌+ℤ◌
in_year yoe era m = ground arith

-- A date of the Gregorian calendar, and the number of days from 1970-01-01 to it.
pub record IsDate (n : ℕ) (date : Date) : Type 0 where
  pub year : ℕ
  pub is_year : date.year ≡ pos year
  pub from_january : 1 ≤ date.month
  pub to_december : date.month ≤ 12
  pub from_first : 1 ≤ date.day
  pub to_last : date.day ≤ days_in_month year date.month
  pub counted : days_before_year year + days_before_month year date.month + date.day ≡ n + 719_163

date_in_year :
    (era doe : ℕ)
    → doe < 146_097
    → era < 5_000_000
    → let m = month_of (month_from_march (day_of_year doe)) in
      date_in_era (pos era) doe ≡ record {
        year = pos (civil_year (year_of_era doe + era * 400) m);
        month = m;
        day = day_of_month (day_of_year doe);
      }
date_in_year era doe h k =
    let doy = day_of_year doe in
    let m = month_of (month_from_march doy) in
    let b : doy ≤ 365 = day_of_year-le doe h in
    let l : year_of_era doe < 400 = year_of_era-lt doe h in
    let small : civil_year (year_of_era doe + era * 400) m < 2 ^ 31 = ground (arith, l, k) in
    let mb : m < 2 ^ 32 = ground (arith, b) in
    let month : m % 2 ^ 32 ≡ m = omega (arith, mb) in
    let day : day_of_month doy % 2 ^ 32 ≡ day_of_month doy = omega (arith, b) in
    rw (in_year (year_of_era doe) era m) (rw (as_i32_or_zero-small _ small) (rw (month, day) refl))

-- For a number of days since 1970-01-01 that is not negative and that a time in milliseconds of an `i64`
-- can have, the result is a date of the Gregorian calendar, with a day that its month has in its year, and
-- by that calendar's lengths of years and months just so many days lead from 1970-01-01 to it.
pub civil_date-IsDate : (n : ℕ) → n ≤ 106_751_991_167 → IsDate n (civil_date (pos n))
unfolding civil_date
civil_date-IsDate n h =
    let n' = n + 719_468 in
    let era = n' / 146_097 in
    let doe = n' % 146_097 in
    let below : doe < 146_097 = omega arith in
    let yoe = year_of_era doe in
    let y0 = yoe + era * 400 - 1 in
    let split : n' ≡ 146_097 * era + doe = omega arith in
    let y_lem : y0 + 1 ≡ yoe + era * 400 = omega (arith, split) in
    let doy = day_of_year doe in
    let m = month_of (month_from_march doy) in
    let next : y0 + 2 ≡ suc yoe + era * 400 = omega (arith, y_lem) in
    let leap : (doy ≡ 365 → is_leap (y0 + 2) ≡ true) =
      λ e. ap is_leap next ∙ (is_leap-era (suc yoe) era ∙ is_leap-last_day doe below e) in
    let (a, b, c, d, e) : Fitting (yoe + era * 400) m (day_of_month doy) doy =
      subst (λ y. Fitting y m (day_of_month doy) doy) y_lem (in_era-Fitting y0 doe below leap) in
    rw (shifted n) (
      rw (from_march-pos n' (omega arith)) (
        rw (date_in_year era doe below (omega arith)) (record {
          year = civil_year (yoe + era * 400) m;
          is_year = refl;
          from_january = a;
          to_december = b;
          from_first = c;
          to_last = d;
          counted = omega (
            arith,
            split,
            e,
            days_before_year-era yoe era (year_of_era-lt doe below),
            day_of_year_lem doe below,
          );
        })))
