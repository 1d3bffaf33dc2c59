-- ===== src/Time.antt =====
-- The clock of Kernel/c/main/time.c. What the assembly reads from the clock's registers is an argument; days
-- and months in it start at 1. An `int8_t` is an integer that wraps.
pub mod Calendar
pub mod Bytes
pub mod Fields
pub mod Local
mod Tests
use bizcocho_os.Prelude.{
  ℕ, zero, suc, ◌+◌, ◌-◌, ◌*◌, ◌/◌, ◌%◌, ◌^◌, Bool, true, false, not, Option, ◌&&◌, ◌||◌, List, [],
  ◌∷◌, ltb, leb, ◌==◌, if◌then◌else◌,
}
use bizcocho_os.Process.{Schedule}
use bizcocho_os.Scheduler.{Switch, scheduler}
use bizcocho_os.Prelude.Int.{ℤ, pos, negsuc, ◌+ℤ◌, ◌-ℤ◌, ltb_ℤ}

-- `struct timezone_t`
pub record Timezone : Type 0 where
  pub hours : ℤ
  pub minutes : ℤ

pub record Date : Type 0 where
  pub year : ℕ
  pub month : ℕ
  pub day : ℕ

-- `struct datetime_t`, its last three fields as one.
pub record Datetime : Type 0 where
  pub hours : ℕ
  pub mins : ℕ
  pub segs : ℕ
  pub date : Date

-- What getSeconds, getMinutes, getHours, getDay, getMonth, getYear and getCentury return.
pub record Registers : Type 0 where
  pub seconds : ℕ
  pub minutes : ℕ
  pub hours : ℕ
  pub day : ℕ
  pub month : ℕ
  pub year : ℕ
  pub century : ℕ

-- The variables of the file.
pub record Clock : Type 0 where
  pub ticks : ℕ
  pub timezone : Timezone

-- `ticks_elapsed` and `seconds_elapsed`
unfoldable pub ticks_elapsed : Clock → ℕ
ticks_elapsed c = c.ticks

unfoldable pub seconds_elapsed : Clock → ℕ
seconds_elapsed c = c.ticks / 18

-- `timer_handler`: a tick, and the scheduler; `rsp` is what `saveStackPointer` finds.
unfoldable pub timer_handler : ℕ → Clock → Schedule → Clock × Option (Schedule × Switch)
timer_handler rsp c s = (record c { ticks = (c.ticks + 1) % 2 ^ 64 }, scheduler rsp s)

-- `setTimeZone`
unfoldable pub set_time_zone : Timezone → Clock → Clock
set_time_zone tz c = record c { timezone = tz }

-- What a value becomes in an `int8_t`, and in a `uint8_t`.
unfoldable pub int8 : ℤ → ℤ
int8 (pos n) = if ltb (n % 256) 128 then pos (n % 256) else negsuc (255 - n % 256)
int8 (negsuc n) = if ltb (n % 256) 128 then negsuc (n % 256) else pos (255 - n % 256)

unfoldable pub uint8 : ℤ → ℕ
uint8 (pos n) = n % 256
uint8 (negsuc n) = 255 - n % 256

-- The remainder of C, which has the sign of the first number.
unfoldable pub remainder : ℤ → ℕ → ℤ
unfolding ◌-ℤ◌
remainder (pos n) k = pos (n % k)
remainder (negsuc n) k = pos 0 -ℤ pos (suc n % k)

-- `isLeapYear`
unfoldable pub is_leap_year : ℕ → Bool
is_leap_year year =
    if year % 400 == 0
    then true
    else (if year % 4 == 0 && not (year % 100 == 0) then true else false)

-- `monthdays[isLeapYear(year)]`
abbrev pub month_list : Bool → List ℕ
month_list leap =
    31 ∷ (if leap then 29 else 28) ∷ 31 ∷ 30 ∷ 31 ∷ 30 ∷ 31 ∷ 31 ∷ 30 ∷ 31 ∷ 30 ∷ 31 ∷ []

abbrev pub entry : List ℕ → ℕ → ℕ
entry [] i = 0
entry (n ∷ ns) zero = n
entry (n ∷ ns) (suc i) = entry ns i

-- `monthdays[isLeapYear(year)][month - 1]`
unfoldable pub month_days : Bool → ℕ → ℕ
month_days leap month = entry (month_list leap) (month - 1)

-- The date where the hour is negative.
unfoldable pub day_before : Date → Date
day_before d =
    let turns = d.month - 1 == 0 in
    let year = if turns then (d.year + 65535) % 65536 else d.year in
    let month = if turns then 12 else d.month - 1 in
    if d.day == 1
    then record { year = year; month = month; day = month_days (is_leap_year year) month }
    else record d { day = d.day - 1 }

-- The date where the hour is 24 or more.
unfoldable pub day_after : Date → Date
day_after d =
    let turns = ltb 12 (d.month + 1) in
    if d.day == month_days (is_leap_year d.year) d.month
    then record {
      year = if turns then (d.year + 1) % 65536 else d.year;
      month = if turns then 1 else d.month + 1;
      day = 1;
    }
    else record d { day = d.day + 1 }

-- `h` and `m` of `getCurrentDateTime` where the date is set.
unfoldable pub local_minutes : Registers → Timezone → ℤ
unfolding int8 ◌+ℤ◌
local_minutes r tz = int8 (pos r.minutes +ℤ tz.minutes)

unfoldable pub local_hours : Registers → Timezone → ℤ
unfolding local_minutes
local_hours r tz =
    let m = local_minutes r tz in
    let h = int8 (pos r.hours +ℤ tz.hours) in
    let h' = if ltb_ℤ m (pos 0) then int8 (h -ℤ pos 1) else h in
    if ltb_ℤ (pos 59) m then int8 (h' +ℤ pos 1) else h'

unfoldable pub local_date : ℤ → Date → Date
local_date h d =
    let d' = if ltb_ℤ h (pos 0) then day_before d else d in
    if ltb_ℤ (pos 23) h then day_after d' else d'

-- `v += k; v %= k`, stored in a `uint8_t`.
unfoldable pub reduced : ℕ → ℤ → ℕ
unfolding int8 uint8 remainder ◌+ℤ◌
reduced k v = uint8 (int8 (remainder (int8 (v +ℤ pos k)) k))

-- `getCurrentDateTime`: the date and time, and the time zone.
unfoldable pub get_current_date_time : Registers → Clock → Datetime × Timezone
unfolding local_hours local_date reduced
get_current_date_time r c =
    let h = local_hours r c.timezone in
    let year = (r.year + r.century * 100) % 65536 in
    (
      record {
        hours = reduced 24 h;
        mins = reduced 60 (local_minutes r c.timezone);
        segs = r.seconds;
        date = local_date h (record { year = year; month = r.month; day = r.day });
      },
      c.timezone,
    )
