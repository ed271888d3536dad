-- ===== src/Store/Cold/Day.antt =====
-- crates/store/src/cold/store.rs, `day_of` and `civil_date`: the day of an event. Its text, with the zeros
-- in front of the numbers, is left out: a date is its three numbers.
pub mod Calendar
use percept.Prelude.{ℕ, suc, ◌+◌, ◌-◌, ◌*◌, ◌/◌, ◌%◌, ◌^◌, if◌then◌else◌, ltb, leb, ◌&&◌}
use percept.Prelude.Int.{ℤ, pos, negsuc, ◌-ℤ◌, ◌+ℤ◌, sub_ℕ, lez, ltz, as_u64}

pub record Date : Type 0 where
  pub year : ℤ
  pub month : ℕ
  pub day : ℕ

-- The division of Rust, which rounds to 0, and a product.
abbrev pub quotient : ℤ → ℕ → ℤ
quotient (pos n) k = pos (n / k)
quotient (negsuc n) k = sub_ℕ 0 (suc n / k)

abbrev pub times : ℤ → ℕ → ℤ
times (pos n) k = pos (n * k)
times (negsuc n) k = sub_ℕ 0 (suc n * k)

abbrev pub year_of_era : ℕ → ℕ
year_of_era doe = (doe - doe / 1_460 + doe / 36_524 - doe / 146_096) / 365

abbrev pub day_of_year : ℕ → ℕ
day_of_year doe = let yoe = year_of_era doe in doe - (365 * yoe + yoe / 4 - yoe / 100)

-- The month that is counted from March.
abbrev pub month_from_march : ℕ → ℕ
month_from_march doy = (5 * doy + 2) / 153

abbrev pub day_of_month : ℕ → ℕ
day_of_month doy = doy - (153 * month_from_march doy + 2) / 5 + 1

abbrev pub month_of : ℕ → ℕ
month_of mp = if ltb mp 10 then mp + 3 else mp - 9

-- `i32::try_from(y).unwrap_or(0)`.
abbrev pub as_i32_or_zero : ℤ → ℤ
as_i32_or_zero y = if lez (negsuc (2 ^ 31 - 1)) y && ltz y (pos (2 ^ 31)) then y else pos 0

abbrev pub era_of : ℤ → ℤ
era_of days =
    if lez (pos 0) days then quotient days 146_097 else quotient (days -ℤ pos 146_096) 146_097

-- The date of the day `doe` of an era, a period of 400 years from a first of March.
abbrev pub date_in_era : ℤ → ℕ → Date
date_in_era era doe =
    let doy = day_of_year doe in
    let m = month_of (month_from_march doy) in
    let y = pos (year_of_era doe) +ℤ times era 400 in
    record {
      year = as_i32_or_zero (if leb m 2 then y +ℤ pos 1 else y);
      month = m % 2 ^ 32;
      day = day_of_month doy % 2 ^ 32;
    }

abbrev pub from_march : ℤ → Date
from_march days = let era = era_of days in date_in_era era (as_u64 (days -ℤ times era 146_097))

-- From the number of days since 1970-01-01.
unfoldable pub civil_date : ℤ → Date
unfolding ◌-ℤ◌ ◌+ℤ◌ as_u64
civil_date days = from_march (days +ℤ pos 719_468)

unfoldable pub day_of : ℤ → Date
day_of ts_ms_utc = civil_date (quotient (quotient ts_ms_utc 1_000) 86_400)
