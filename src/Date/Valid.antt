-- ===== src/Date/Valid.antt =====
-- crates/tagents-core/src/date.rs: the proofs on the month and the day of a date.
use tagents.Prelude.{
  ℕ, ◌+◌, ◌%◌, ◌<◌, ◌≤◌, ◌≡◌, ◌≢◌, Bool, true, leb, arith, if◌then◌else◌, Bool-cases, inl, inr,
  ◌&&◌, ◌||◌, not, ◌==◌,
}
use tagents.Int.{ℤ, pos, negsuc, sub_nat, add}
use tagents.Date.{
  times, div_euclid, rem_euclid, year_of_era, day_of_year, month_of, day_of, Civil, civil_from_days,
  days_in_month,
}
use tagents.Date.Round.{year_trip, rem_euclid-lt}

abbrev is_leap : ℕ → Bool
is_leap y = (y % 4 == 0 && not (y % 100 == 0)) || y % 400 == 0

-- Only a leap year has a day 365 that begins in March: its end is the 29th of February of the next year.
leap_day : (doe : ℕ) → doe < 146097 → day_of_year doe ≡ 365 → is_leap (year_of_era doe + 1) ≡ true
unfolding year_of_era day_of_year
leap_day doe h e = ground (arith, h, e)

rem_next :
    (era : ℤ) (r : ℕ)
    → let year = add (add (pos r) (times era 400)) (pos 1) in
      r < 400
      → (rem_euclid year 4 ≡ (r + 1) % 4)
        × (rem_euclid year 100 ≡ (r + 1) % 100)
        × (rem_euclid year 400 ≡ (r + 1) % 400)
unfolding add sub_nat times rem_euclid
rem_next (pos e) r h = (ground (arith, h), ground (arith, h), ground (arith, h))
rem_next (negsuc e) r h = (ground (arith, h), ground (arith, h), ground (arith, h))

month_fits : (doy : ℕ) → doy < 366 → (1 ≤ month_of doy) × (month_of doy ≤ 12) × (1 ≤ day_of doy)
unfolding month_of day_of
month_fits doy h = (ground (arith, h), ground (arith, h), ground (arith, h))

usual_length : ℕ → ℕ
usual_length m = if m == 2 then 28 else if m == 4 || m == 6 || m == 9 || m == 11 then 30 else 31

day_fits : (doy : ℕ) → doy < 366 → doy ≢ 365 → day_of doy ≤ usual_length (month_of doy)
unfolding month_of day_of usual_length
day_fits doy h n = ground (arith, h, n)

usual_length-days_in_month : (year : ℤ) (m : ℕ) → usual_length m ≤ days_in_month year m
unfolding usual_length days_in_month
usual_length-days_in_month year m = ground arith

last_of_february : (doy : ℕ) → doy ≡ 365 → (month_of doy ≡ 2) × (day_of doy ≡ 29)
unfolding month_of day_of
last_of_february doy e = (ground (arith, e), ground (arith, e))

leap_february :
    (era : ℤ) (r : ℕ)
    → r < 400
    → is_leap (r + 1) ≡ true
    → days_in_month (add (add (pos r) (times era 400)) (pos 1)) 2 ≡ 29
unfolding days_in_month
leap_february era r h leap =
    let next = rem_next era r h in ground (arith, next.0, next.1, next.2, leap)

day_in_month :
    (era : ℤ) (doe : ℕ)
    → doe < 146097
    → let m = month_of (day_of_year doe) in
      let year =
        add (add (pos (year_of_era doe)) (times era 400)) (pos (if leb m 2 then 1 else 0)) in
      day_of (day_of_year doe) ≤ days_in_month year m
day_in_month era doe h =
    let doy = day_of_year doe in
    let year = year_trip doe h in
    elim (Bool-cases (doy == 365)) [
      | inl last ↦
          let e : doy ≡ 365 = ground (arith, last) in
          let feb = last_of_february doy e in
          rw (feb.0, feb.1)
            (rw (leap_february era (year_of_era doe) year.0 (leap_day doe h e)) (omega arith))
      | inr other ↦
          let fits = day_fits doy year.1 (λ e. ground (arith, other, e)) in
          let usual =
            usual_length-days_in_month
              (add (add (pos (year_of_era doe)) (times era 400))
                (pos (if leb (month_of doy) 2 then 1 else 0)))
              (month_of doy) in
          omega (arith, fits, usual)
    ]

pub record IsDate (date : Civil) : Type 0 where
  pub month_low : 1 ≤ date.month
  pub month_high : date.month ≤ 12
  pub day_low : 1 ≤ date.day
  pub day_high : date.day ≤ days_in_month date.year date.month

-- The date of every day is one of the calendar: its month is 1 to 12, and its day is 1 to the length of
-- that month in that year.
pub civil_from_days-IsDate : (days : ℤ) → IsDate (civil_from_days days)
unfolding civil_from_days
civil_from_days-IsDate days =
    let z = add days (pos 719468) in
    let doe = rem_euclid z 146097 in
    let h = rem_euclid-lt z in
    let fits = month_fits (day_of_year doe) (year_trip doe h).1 in
    record {
      month_low = fits.0;
      month_high = fits.1;
      day_low = fits.2;
      day_high = day_in_month (div_euclid z 146097) doe h;
    }
