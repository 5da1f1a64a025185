-- ===== src/Tests/Date.antt =====
-- crates/tagents-core/src/date.rs: each theorem at one day, and the dates of two days.
use tagents.Prelude.{◌≡◌, refl}
use tagents.Int.{pos, negsuc}
use tagents.Date.{civil_from_days, days_from_civil}
use tagents.Date.Round.{days_from_civil-civil_from_days}
use tagents.Date.Valid.{IsDate, civil_from_days-IsDate}

-- The day before 1970-01-01.
last_of_1969 : civil_from_days (negsuc 0) ≡ record { year = pos 1969; month = 12; day = 31 }
unfolding civil_from_days
last_of_1969 = refl

leap_2000 : civil_from_days (pos 11016) ≡ record { year = pos 2000; month = 2; day = 29 }
unfolding civil_from_days
leap_2000 = refl

days_from_civil-civil_from_days_example :
    let date = civil_from_days (negsuc 719527) in
    days_from_civil date.year date.month date.day ≡ negsuc 719527
days_from_civil-civil_from_days_example = days_from_civil-civil_from_days (negsuc 719527)

civil_from_days-IsDate_example : IsDate (civil_from_days (pos 11016))
civil_from_days-IsDate_example = civil_from_days-IsDate (pos 11016)
