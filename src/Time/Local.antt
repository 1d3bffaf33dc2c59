-- ===== src/Time/Local.antt =====
-- The local time: what the two fields of a time zone add.
use bizcocho_os.Prelude.{ℕ, ◌+◌, ◌-◌, ◌*◌, ◌%◌, ◌<◌, ◌≡◌, ◌↔◌}
use bizcocho_os.Prelude.Int.{pos_part, neg_part}
use bizcocho_os.Time.{Timezone, Date, Datetime, Registers}
use bizcocho_os.Time.Calendar.{IsDate, day_number}

-- What the clock shows, and where its day can be moved by one.
pub record IsClock (r : Registers) : Type 0 where
  pub hours : r.hours < 24
  pub minutes : r.minutes < 60
  pub year : (r.year < 100) × (r.century < 100) × (0 < r.century)
  pub date : IsDate (record { year = r.year + r.century * 100; month = r.month; day = r.day })

-- A time zone less than a day away, with the minutes as a part of an hour.
pub record IsZone (tz : Timezone) : Type 0 where
  pub hours_up : pos_part tz.hours < 24
  pub hours_down : neg_part tz.hours < 24
  pub minutes_up : pos_part tz.minutes < 60
  pub minutes_down : neg_part tz.minutes < 60

abbrev pub clock_date : Registers → Date
clock_date r = record { year = r.year + r.century * 100; month = r.month; day = r.day }

-- The minute of the hour.
abbrev pub right_minute : Registers → Timezone → ℕ
right_minute r tz = (r.minutes + pos_part tz.minutes + 60 - neg_part tz.minutes) % 60

-- A date and time counted in minutes.
abbrev pub minute_number : Date → ℕ → ℕ → ℕ
minute_number d h m = 1440 * day_number d + 60 * h + m

pub record IsLocal (r : Registers) (tz : Timezone) (t : Datetime) : Type 0 where
  pub date : IsDate t.date
  pub hours : t.hours < 24
  pub shift :
      minute_number t.date t.hours (right_minute r tz)
        + 60 * neg_part tz.hours
        + neg_part tz.minutes
      ≡ minute_number (clock_date r) r.hours r.minutes
        + 60 * pos_part tz.hours
        + pos_part tz.minutes
  pub mins :
      (t.mins ≡ right_minute r tz) ↔ (r.minutes + pos_part tz.minutes < 68 + neg_part tz.minutes)
