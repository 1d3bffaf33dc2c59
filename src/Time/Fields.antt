-- ===== src/Time/Fields.antt =====
-- The minutes, hours and date of `getCurrentDateTime`, before they are reduced.
use bizcocho_os.Prelude.{
  ℕ, suc, ◌+◌, ◌-◌, ◌*◌, ◌%◌, ◌≤◌, ◌<◌, ◌≡◌, ◌↔◌, ◌∙◌, Bool, true, false, Bool-cases, inl, inr,
  arith, ltb, if◌then◌else◌,
}
use bizcocho_os.Prelude.Int.{ℤ, pos, negsuc, pos_part, neg_part, sub_ℕ, ◌+ℤ◌, ◌-ℤ◌, ltb_ℤ}
use bizcocho_os.Time.{
  Timezone, Date, Registers, int8, local_minutes, local_hours, local_date, reduced,
}
use bizcocho_os.Time.Calendar.{IsDate, day_number, day_after_lem, day_before_lem}
use bizcocho_os.Time.Bytes.{flag, int8-sub_ℕ, reduced_ok, add_pos, add_negsuc, reduced_wrapped}

pub local_minutes_lem :
    (r : Registers) (tz : Timezone)
    → r.minutes < 60
    → pos_part tz.minutes < 60
    → neg_part tz.minutes < 60
    → (pos_part (local_minutes r tz) + neg_part tz.minutes
        ≡ neg_part (local_minutes r tz) + r.minutes + pos_part tz.minutes)
      × (pos_part (local_minutes r tz) < 119)
      × (neg_part (local_minutes r tz) < 60)
unfolding local_minutes ◌+ℤ◌
local_minutes_lem r tz m p n =
    let s =
      int8-sub_ℕ (r.minutes + pos_part tz.minutes) (0 + neg_part tz.minutes) (omega arith)
        (omega arith) in
    (omega (arith, s), omega (arith, s), omega (arith, s))

pub hour_less : (b : Bool) (h : ℤ) → ℤ
hour_less b h = if b then int8 (h -ℤ pos 1) else h

pub hour_more : (b : Bool) (h : ℤ) → ℤ
hour_more b h = if b then int8 (h +ℤ pos 1) else h

pub hour_less_lem :
    (b : Bool) (h : ℤ)
    → pos_part h < 128
    → neg_part h < 128
    → (pos_part (hour_less b h) + neg_part h + flag b ≡ neg_part (hour_less b h) + pos_part h)
      × (pos_part (hour_less b h) ≤ pos_part h)
      × (neg_part (hour_less b h) ≤ neg_part h + 1)
unfolding hour_less ◌-ℤ◌
hour_less_lem false h lo hi = (omega arith, omega arith, omega arith)
hour_less_lem true h lo hi =
    let s = int8-sub_ℕ (pos_part h + 0) (neg_part h + 1) (omega arith) (omega arith) in
    (omega (arith, s), omega (arith, s), omega (arith, s))

pub hour_more_lem :
    (b : Bool) (h : ℤ)
    → pos_part h < 127
    → neg_part h < 128
    → (pos_part (hour_more b h) + neg_part h ≡ neg_part (hour_more b h) + pos_part h + flag b)
      × (pos_part (hour_more b h) ≤ pos_part h + 1)
      × (neg_part (hour_more b h) ≤ neg_part h)
unfolding hour_more ◌+ℤ◌
hour_more_lem false h lo hi = (omega arith, omega arith, omega arith)
hour_more_lem true h lo hi =
    let s = int8-sub_ℕ (pos_part h + 1) (neg_part h + 0) (omega arith) (omega arith) in
    (omega (arith, s), omega (arith, s), omega (arith, s))

pub local_hours_lem :
    (r : Registers) (tz : Timezone)
    → r.hours < 24
    → pos_part tz.hours < 24
    → neg_part tz.hours < 24
    → (pos_part (local_hours r tz) + neg_part tz.hours + flag (ltb_ℤ (local_minutes r tz) (pos 0))
        ≡ neg_part (local_hours r tz)
          + r.hours
          + pos_part tz.hours
          + flag (ltb_ℤ (pos 59) (local_minutes r tz)))
      × (pos_part (local_hours r tz) < 48)
      × (neg_part (local_hours r tz) ≤ 24)
unfolding local_hours hour_less hour_more ◌+ℤ◌
local_hours_lem r tz h p n =
    let under = ltb_ℤ (local_minutes r tz) (pos 0) in
    let over = ltb_ℤ (pos 59) (local_minutes r tz) in
    let first = int8 (sub_ℕ (r.hours + pos_part tz.hours) (0 + neg_part tz.hours)) in
    let s =
      int8-sub_ℕ (r.hours + pos_part tz.hours) (0 + neg_part tz.hours) (omega arith)
        (omega arith) in
    let l = hour_less_lem under first (omega (arith, s)) (omega (arith, s)) in
    let m =
      hour_more_lem over (hour_less under first) (omega (arith, s, l)) (omega (arith, s, l)) in
    (omega (arith, s, l, m), omega (arith, s, l, m), omega (arith, s, l, m))

pub local_date_lem :
    (v : ℤ) (d : Date)
    → IsDate d
    → 0 < d.year
    → d.year < 65535
    → IsDate (local_date v d)
      × (day_number (local_date v d) + flag (ltb_ℤ v (pos 0))
          ≡ day_number d + flag (ltb_ℤ (pos 23) v))
unfolding local_date
local_date_lem (pos n) d ok lo hi =
    let not_before : ltb_ℤ (pos n) (pos 0) ≡ false = ground arith in
    elim (Bool-cases (ltb_ℤ (pos 23) (pos n))) [
      | inl after ↦
          let next = day_after_lem d ok hi in rw (not_before, after) (next.0, omega (arith, next.1))
      | inr same ↦ rw (not_before, same) (ok, omega arith)
    ]
local_date_lem (negsuc n) d ok lo hi =
    let before : ltb_ℤ (negsuc n) (pos 0) ≡ true = ground arith in
    let not_after : ltb_ℤ (pos 23) (negsuc n) ≡ false = ground arith in
    let prev = day_before_lem d ok lo hi in rw (before, not_after) (prev.0, omega (arith, prev.1))

pub carried_minute :
    (v : ℤ) (m p n : ℕ)
    → pos_part v + n ≡ neg_part v + m + p
    → pos_part v < 119
    → neg_part v < 60
    → (m + p + 60 - n) % 60 + 60 * flag (ltb_ℤ (pos 59) v) + n ≡ m + p + 60 * flag (ltb_ℤ v (pos 0))
carried_minute (pos a) m p n e lo hi =
    let not_under : ltb_ℤ (pos a) (pos 0) ≡ false = ground arith in
    elim (Bool-cases (ltb_ℤ (pos 59) (pos a))) [
      | inl over ↦
          let big : 59 < a = ground (arith, over) in rw (not_under, over) (omega (arith, e, big))
      | inr same ↦
          let small : a < 60 = ground (arith, same) in
          rw (not_under, same) (omega (arith, e, small))
    ]
carried_minute (negsuc a) m p n e lo hi =
    let under : ltb_ℤ (negsuc a) (pos 0) ≡ true = ground arith in
    let not_over : ltb_ℤ (pos 59) (negsuc a) ≡ false = ground arith in
    rw (under, not_over) (omega (arith, e))

pub shown_minute :
    (v : ℤ) (m p n : ℕ)
    → pos_part v + n ≡ neg_part v + m + p
    → pos_part v < 119
    → neg_part v < 60
    → (reduced 60 v ≡ (m + p + 60 - n) % 60) ↔ (m + p < 68 + n)
shown_minute (negsuc a) m p n e lo hi =
    let r =
      reduced_ok 60 (60 - suc a) (negsuc a) (add_negsuc a 60 (omega arith)) (omega arith)
        (omega arith) in
    (λ _. omega (arith, e), λ _. r ∙ omega (arith, e))
shown_minute (pos a) m p n e lo hi =
    let same : (m + p + 60 - n) % 60 ≡ a % 60 = omega (arith, e) in
    elim (Bool-cases (ltb a 68)) [
      | inl fits ↦
          let small : a < 68 = ground (arith, fits) in
          let r =
            reduced_ok 60 (a + 60) (pos a) (add_pos a 60) (omega (arith, small)) (omega arith) in
          (λ _. omega (arith, e, small), λ _. r ∙ omega (arith, e))
      | inr wraps ↦
          let big : 68 ≤ a = ground (arith, wraps) in
          (
            λ h. absurd (reduced_wrapped a big lo (h ∙ same)),
            λ h. absurd (omega (arith, e, big, h)),
          )
    ]
