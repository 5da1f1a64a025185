-- ===== src/Date/Round.antt =====
-- crates/tagents-core/src/date.rs: the proofs on the day of a date and the date of a day.
use tagents.Prelude.{
  ℕ, ◌+◌, ◌-◌, ◌*◌, ◌/◌, ◌<◌, ◌≡◌, Bool, ap, ◌∙◌, true, false, leb, ltb, arith, if◌then◌else◌,
}
use tagents.Int.{ℤ, pos, negsuc, sub_nat, add}
use tagents.Date.{
  times, div_euclid, rem_euclid, year_of_era, day_of_year, month_of, day_of, civil_from_days,
  days_from_civil,
}

month_trip :
    (doy : ℕ)
    → doy < 366
    → let m = month_of doy in
      (153 * (if ltb 2 m then m - 3 else m + 9) + 2) / 5 + day_of doy ≡ doy + 1
unfolding month_of day_of
month_trip doy h = ground (arith, h)

pub year_trip :
    (doe : ℕ)
    → doe < 146097
    → let yoe = year_of_era doe in
      (yoe < 400)
      × (day_of_year doe < 366)
      × (yoe * 365 + yoe / 4 - yoe / 100 + day_of_year doe ≡ doe)
unfolding year_of_era day_of_year
year_trip doe h = (omega (arith, h), omega (arith, h), omega (arith, h))

pub rem_euclid-lt : (z : ℤ) → rem_euclid z 146097 < 146097
unfolding rem_euclid
rem_euclid-lt (pos a) = omega arith
rem_euclid-lt (negsuc a) = omega arith

undo : (x : ℤ) → add (add x (pos 1)) (negsuc 0) ≡ x
unfolding add sub_nat
undo (pos a) = ground arith
undo (negsuc a) = ground arith

pub add-zero : (x : ℤ) → add x (pos 0) ≡ x
unfolding add sub_nat
add-zero (pos a) = ground arith
add-zero (negsuc a) = ground arith

era_trip :
    (era : ℤ) (r : ℕ)
    → r < 400
    → (div_euclid (add (pos r) (times era 400)) 400 ≡ era)
      × (rem_euclid (add (pos r) (times era 400)) 400 ≡ r)
unfolding add sub_nat times div_euclid rem_euclid
era_trip (pos e) r h = (ap pos (omega (arith, h)), omega (arith, h))
era_trip (negsuc e) r h = (ground (arith, h), ground (arith, h))

euclid :
    (z : ℤ)
    → add (times (div_euclid z 146097) 146097) (pos (rem_euclid z 146097 + 1)) ≡ add z (pos 1)
unfolding add sub_nat times div_euclid rem_euclid
euclid (pos a) = ap pos (omega arith)
euclid (negsuc a) = ground arith

shift : (x : ℤ) → add (add (add x (pos 719468)) (pos 1)) (negsuc 719468) ≡ x
unfolding add sub_nat
shift (pos a) = ground arith
shift (negsuc a) = ground arith

-- The year as it is before January and February count for the next one.
uncarried :
    (x : ℤ) (b : Bool)
    → (if b
        then add (add x (pos (if b then 1 else 0))) (negsuc 0)
        else add x (pos (if b then 1 else 0)))
      ≡ x
uncarried x true = undo x
uncarried x false = add-zero x

-- The days from the era, the year in it and the day of the year, the first of which counts as 1.
abbrev gathered : ℤ → ℕ → ℕ → ℤ
gathered era yoe doy =
    add (add (times era 146097) (pos (yoe * 365 + yoe / 4 - yoe / 100 + doy))) (negsuc 719468)

-- Every day, before 1970 and after, is the day that `days_from_civil` computes from its date.
pub days_from_civil-civil_from_days :
    (days : ℤ)
    → let date = civil_from_days days in days_from_civil date.year date.month date.day ≡ days
unfolding civil_from_days days_from_civil
days_from_civil-civil_from_days days =
    let z = add days (pos 719468) in
    let era = div_euclid z 146097 in
    let doe = rem_euclid z 146097 in
    let yoe = year_of_era doe in
    let doy = day_of_year doe in
    let m = month_of doy in
    let y = add (pos yoe) (times era 400) in
    let of_month = (153 * (if ltb 2 m then m - 3 else m + 9) + 2) / 5 + day_of doy in
    let year = year_trip doe (rem_euclid-lt z) in
    let back = era_trip era yoe year.0 in
    let summed : yoe * 365 + yoe / 4 - yoe / 100 + (doy + 1) ≡ doe + 1 = omega (arith, year.2) in
    ap (λ x. gathered (div_euclid x 400) (rem_euclid x 400) of_month) (uncarried y (leb m 2))
    ∙ ap (λ e. gathered e (rem_euclid y 400) of_month) back.0
    ∙ ap (λ r. gathered era r of_month) back.1
    ∙ ap (gathered era yoe) (month_trip doy year.1)
    ∙ ap (λ n. add (add (times era 146097) (pos n)) (negsuc 719468)) summed
    ∙ ap (λ x. add x (negsuc 719468)) (euclid z)
    ∙ shift days
