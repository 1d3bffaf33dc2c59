-- ===== src/Time/Tests.antt =====
-- A new year, and minutes that wrap.
use bizcocho_os.Prelude.{◌≡◌, refl}
use bizcocho_os.Prelude.Int.{pos, negsuc}
use bizcocho_os.Time.{
  Registers, Clock, is_leap_year, month_days, day_before, get_current_date_time, seconds_elapsed,
  set_time_zone,
}

-- The first of January 2024, 1:50.
abbrev new_year : Registers
new_year = record {
  seconds = 9;
  minutes = 50;
  hours = 1;
  day = 1;
  month = 1;
  year = 24;
  century = 20;
}

abbrev west : Clock
west = record { ticks = 40; timezone = record { hours = negsuc 2; minutes = pos 30 } }

-- The hour and the date are right; the minute would be 20.
wrong_minute : (get_current_date_time new_year west).0 ≡ record {
  hours = 23;
  mins = 200;
  segs = 9;
  date = record { year = 2023; month = 12; day = 31 };
}
unfolding get_current_date_time day_before is_leap_year month_days
wrong_minute = refl

zone_set : (set_time_zone west.timezone (record west { ticks = 36 })).timezone ≡ west.timezone
unfolding set_time_zone
zone_set = refl

two_seconds : seconds_elapsed west ≡ 2
unfolding seconds_elapsed
two_seconds = refl
