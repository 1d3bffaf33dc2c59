-- ===== src/Time/Calendar.antt =====
-- The calendar: dates counted in days.
use bizcocho_os.Prelude.{
  ℕ, zero, suc, ◌+◌, ◌-◌, ◌%◌, ◌≤◌, ◌<◌, ◌≡◌, refl, ap, sym, ◌∙◌, All, length, List, [], ◌∷◌, Bool,
  true, false, Bool-cases, inl, inr, arith, ltb, ◌==◌, if◌then◌else◌,
}
use bizcocho_os.Time.{Date, month_list, entry, is_leap_year, month_days, day_before, day_after}

-- The days of the first `n` months, and of the years before one.
abbrev pub days_of_months : Bool → ℕ → ℕ
days_of_months leap zero = 0
days_of_months leap (suc n) = days_of_months leap n + month_days leap (suc n)

abbrev pub days_of_years : ℕ → ℕ
days_of_years zero = 0
days_of_years (suc y) = days_of_years y + (if is_leap_year y then 366 else 365)

-- The number of a day.
abbrev pub day_number : Date → ℕ
day_number d = days_of_years d.year + days_of_months (is_leap_year d.year) (d.month - 1) + d.day

pub record IsDate (d : Date) : Type 0 where
  pub month_from : 1 ≤ d.month
  pub month_to : d.month ≤ 12
  pub day_from : 1 ≤ d.day
  pub day_to : d.day ≤ month_days (is_leap_year d.year) d.month

days_of_year : (leap : Bool) → days_of_months leap 12 ≡ (if leap then 366 else 365)
unfolding month_days
days_of_year true = refl
days_of_year false = refl

entry-All : (P : ℕ → Type 0) (ns : List ℕ) (i : ℕ) → All P ns → i < length ns → P (entry ns i)
entry-All P [] i all h = absurd (omega arith)
entry-All P (n ∷ ns) zero all h = all.0
entry-All P (n ∷ ns) (suc i) all h = entry-All P ns i all.1 (omega arith)

month_list-All : (leap : Bool) → All (λ n. 1 ≤ n) (month_list leap)
month_list-All true = omega arith
month_list-All false = omega arith

month_days_pos : (leap : Bool) (m : ℕ) → 1 ≤ m → m ≤ 12 → 1 ≤ month_days leap m
unfolding month_days
month_days_pos leap m lo hi =
    entry-All (λ n. 1 ≤ n) (month_list leap) (m - 1) (month_list-All leap) (omega arith)

-- A month further.
days_of_months-next :
    (leap : Bool) (m : ℕ)
    → 1 ≤ m
    → days_of_months leap m ≡ days_of_months leap (m - 1) + month_days leap m
days_of_months-next leap zero lo = absurd (omega arith)
days_of_months-next leap (suc n) lo = let same : suc n - 1 ≡ n = omega arith in rw same

-- The last day of a year, and the first day of the next one.
year_turns :
    (y : ℕ)
    → days_of_years (y + 1) + 0 + 1
      ≡ days_of_years y + days_of_months (is_leap_year y) 11 + month_days (is_leap_year y) 12 + 1
year_turns y =
    let next : y + 1 ≡ suc y = omega arith in
    let whole = days_of_year (is_leap_year y) in rw next (omega (arith, whole))

last_day :
    (d : Date)
    → IsDate d
    → d.year < 65535
    → (d.day == month_days (is_leap_year d.year) d.month) ≡ true
    → IsDate (day_after d) × (day_number (day_after d) ≡ day_number d + 1)
unfolding day_after
last_day d v small last = elim (Bool-cases (ltb 12 (d.month + 1))) [
  | inl turns ↦
      let december : d.month ≡ 12 = ground (arith, v.month_to) in
      let year : (d.year + 1) % 65536 ≡ d.year + 1 = omega arith in
      let day : d.day ≡ month_days (is_leap_year d.year) 12 =
        ground (arith, last) ∙ ap (month_days (is_leap_year d.year)) december in
      let one = month_days_pos (is_leap_year (d.year + 1)) 1 (omega arith) (omega arith) in
      rw (last, turns, year, december)
        (
          record {
            month_from = omega arith;
            month_to = omega arith;
            day_from = omega arith;
            day_to = one;
          },
          year_turns d.year ∙ omega (arith, day),
        )
  | inr stays ↦
      let next : d.month + 1 - 1 ≡ d.month = omega arith in
      let day : d.day ≡ month_days (is_leap_year d.year) d.month = ground (arith, last) in
      let sum = days_of_months-next (is_leap_year d.year) d.month v.month_from in
      let one = month_days_pos (is_leap_year d.year) (d.month + 1) (omega arith) (ground arith) in
      rw (last, stays, next)
        (
          record {
            month_from = omega arith;
            month_to = ground arith;
            day_from = omega arith;
            day_to = one;
          },
          omega (arith, day, sum),
        )
]

first_day :
    (d : Date)
    → IsDate d
    → 0 < d.year
    → d.year < 65535
    → (d.day == 1) ≡ true
    → IsDate (day_before d) × (day_number (day_before d) + 1 ≡ day_number d)
unfolding day_before
first_day d v pos small first = elim (Bool-cases (d.month - 1 == 0)) [
  | inl turns ↦
      let january : d.month ≡ 1 = ground (arith, v.month_from) in
      let year : (d.year + 65535) % 65536 ≡ d.year - 1 = omega arith in
      let again : d.year ≡ d.year - 1 + 1 = omega arith in
      let day : d.day ≡ 1 = ground arith in
      let some_day = month_days_pos (is_leap_year (d.year - 1)) 12 (omega arith) (omega arith) in
      let turned = year_turns (d.year - 1) in
      let whole : days_of_years (d.year - 1 + 1) ≡ days_of_years d.year =
        ap days_of_years (sym again) in
      rw (first, turns, year)
        (
          record {
            month_from = omega arith;
            month_to = omega arith;
            day_from = some_day;
            day_to = omega arith;
          },
          rw january (omega (arith, turned, whole, day)),
        )
  | inr stays ↦
      let before : d.month ≡ d.month - 1 + 1 = ground arith in
      let day : d.day ≡ 1 = ground arith in
      let sum = days_of_months-next (is_leap_year d.year) (d.month - 1) (ground arith) in
      let some_day =
        month_days_pos (is_leap_year d.year) (d.month - 1) (ground arith)
          (omega (arith, v.month_to)) in
      rw (first, stays)
        (
          record {
            month_from = ground arith;
            month_to = omega (arith, v.month_to);
            day_from = some_day;
            day_to = omega arith;
          },
          omega (arith, day, sum),
        )
]

pub day_after_lem :
    (d : Date)
    → IsDate d
    → d.year < 65535
    → IsDate (day_after d) × (day_number (day_after d) ≡ day_number d + 1)
unfolding day_after
day_after_lem d v small = elim (Bool-cases (d.day == month_days (is_leap_year d.year) d.month)) [
  | inl last ↦ last_day d v small last
  | inr more ↦ rw more (
    record {
      month_from = v.month_from;
      month_to = v.month_to;
      day_from = omega arith;
      day_to = ground (arith, v.day_to, more);
    },
    omega arith,
  )
]

pub day_before_lem :
    (d : Date)
    → IsDate d
    → 0 < d.year
    → d.year < 65535
    → IsDate (day_before d) × (day_number (day_before d) + 1 ≡ day_number d)
unfolding day_before
day_before_lem d v pos small = elim (Bool-cases (d.day == 1)) [
  | inl first ↦ first_day d v pos small first
  | inr more ↦ rw more (
    record {
      month_from = v.month_from;
      month_to = v.month_to;
      day_from = ground arith;
      day_to = omega (arith, v.day_to);
    },
    ground arith,
  )
]
