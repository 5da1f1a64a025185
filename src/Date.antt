-- ===== src/Date.antt =====
-- crates/tagents-core/src/date.rs: the days since 1970-01-01 and the dates of the proleptic Gregorian
-- calendar. An `i64` is an integer without bounds here; months and days are natural numbers.
use tagents.Prelude.{
  ℕ, ◌+◌, ◌-◌, ◌*◌, ◌/◌, ◌%◌, Bool, true, false, ◌&&◌, ◌||◌, not, leb, ltb, ◌==◌, if◌then◌else◌,
}
use tagents.Int.{ℤ, pos, negsuc, sub_nat, add}
pub mod Round
pub mod Valid

-- The product with a `k` that is not 0.
unfoldable pub times : ℤ → ℕ → ℤ
times (pos a) k = pos (a * k)
times (negsuc a) k = negsuc ((a + 1) * k - 1)

-- `div_euclid` and `rem_euclid` by a `k` that is not 0.
unfoldable pub div_euclid : ℤ → ℕ → ℤ
div_euclid (pos a) k = pos (a / k)
div_euclid (negsuc a) k = negsuc (a / k)

unfoldable pub rem_euclid : ℤ → ℕ → ℕ
rem_euclid (pos a) k = a % k
rem_euclid (negsuc a) k = k - 1 - a % k

unfoldable pub year_of_era : ℕ → ℕ
year_of_era doe = (doe - doe / 1460 + doe / 36524 - doe / 146096) / 365

unfoldable pub day_of_year : ℕ → ℕ
unfolding year_of_era
day_of_year doe = let yoe = year_of_era doe in doe - (365 * yoe + yoe / 4 - yoe / 100)

-- The month and the day of a day of the year that begins in March.
unfoldable pub month_of : ℕ → ℕ
month_of doy =
    let shifted = (5 * doy + 2) / 153 in if ltb shifted 10 then shifted + 3 else shifted - 9

unfoldable pub day_of : ℕ → ℕ
day_of doy = doy - (153 * ((5 * doy + 2) / 153) + 2) / 5 + 1

pub record Civil : Type 0 where
  pub year : ℤ
  pub month : ℕ
  pub day : ℕ

unfoldable pub civil_from_days : ℤ → Civil
unfolding add div_euclid rem_euclid year_of_era day_of_year month_of day_of times
civil_from_days days =
    let z = add days (pos 719468) in
    let era = div_euclid z 146097 in
    let doe = rem_euclid z 146097 in
    let doy = day_of_year doe in
    let month = month_of doy in
    record {
      year = add (add (pos (year_of_era doe)) (times era 400)) (pos (if leb month 2 then 1 else 0));
      month = month;
      day = day_of doy;
    }

-- That `year % k` is 0 is that the remainder of `rem_euclid` is.
unfoldable pub days_in_month : ℤ → ℕ → ℕ
unfolding rem_euclid
days_in_month year month =
    let divides : ℕ → Bool = λ k. rem_euclid year k == 0 in
    if month == 2
    then (if (divides 4 && not (divides 100)) || divides 400 then 29 else 28)
    else if month == 4 || month == 6 || month == 9 || month == 11
    then 30
    else 31

-- `y - era * 400` is the remainder of `y`, and the 1 that is taken from the day is taken from the sum.
unfoldable pub days_from_civil : ℤ → ℕ → ℕ → ℤ
unfolding add div_euclid rem_euclid times
days_from_civil year month day =
    let y = if leb month 2 then add year (negsuc 0) else year in
    let era = div_euclid y 400 in
    let yoe = rem_euclid y 400 in
    let doy = (153 * (if ltb 2 month then month - 3 else month + 9) + 2) / 5 + day in
    add (add (times era 146097) (pos (yoe * 365 + yoe / 4 - yoe / 100 + doy))) (negsuc 719468)
