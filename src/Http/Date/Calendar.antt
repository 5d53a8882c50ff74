-- ===== src/Http/Date/Calendar.antt =====
-- The days of the calendar, one by one.
use wget.Prelude.{
  ltb_iff, ℕ, zero, suc, ◌+◌, ◌-◌, ◌<◌, ◌≤◌, ◌≡◌, refl, ap, ◌∙◌, Bool-cases, inl, inr, ◌&&◌, ◌||◌,
  get_or, ltb, ◌==◌, if◌then◌else◌, arith, every, every_elim,
}
use wget.Http.Date.{bit, leap_days, days_per_month, sum_of_days, is_leap_year, day_number}

-- a date of the calendar
pub record CalendarDate : Type 0 where
  pub year : ℕ
  pub mon : ℕ
  pub day : ℕ

-- the days of a month, with a leap day in February
abbrev pub days_in : ℕ → ℕ → ℕ
days_in year mon = get_or days_per_month (mon - 1) 0 + bit (mon == 2 && is_leap_year year)

abbrev pub next_day : CalendarDate → CalendarDate
next_day date =
    if ltb date.day (days_in date.year date.mon)
    then record date { day = suc date.day }
    else if ltb date.mon 12
    then record { year = date.year; mon = suc date.mon; day = 1 }
    else record { year = suc date.year; mon = 1; day = 1 }

-- the day that comes `n` days after 1 January 1970
abbrev pub days_after : ℕ → CalendarDate
days_after zero = record { year = 1970; mon = 1; day = 1 }
days_after (suc n) = next_day (days_after n)

pub record IsDate (date : CalendarDate) : Type 0 where
  pub since : 1970 ≤ date.year
  pub first_month : 1 ≤ date.mon
  pub last_month : date.mon ≤ 12
  pub first_day : 1 ≤ date.day
  pub last_day : date.day ≤ days_in date.year date.mon

leap_days-suc :
    (year : ℕ)
    → 1970 ≤ year
    → leap_days 1970 (suc year) ≡ leap_days 1970 year + bit (is_leap_year year)
unfolding leap_days
leap_days-suc year h = ground arith

month_table :
    (mon : ℕ)
    → 1 ≤ mon
    → mon < 12
    → (get_or sum_of_days (suc mon - 1) 0
        ≡ get_or sum_of_days (mon - 1) 0 + get_or days_per_month (mon - 1) 0)
      × (0 < get_or days_per_month (suc mon - 1) 0)
month_table mon h k =
    let sums =
      every_elim
        (λ j.
          j == 0
          || get_or sum_of_days (suc j - 1) 0
            == get_or sum_of_days (j - 1) 0 + get_or days_per_month (j - 1) 0)
        12 mon k (unfold every in refl) in
    let filled =
      every_elim (λ j. ltb 0 (get_or days_per_month (suc j - 1) 0)) 12 mon k
        (unfold every in refl) in
    ground (arith, sums, filled)

day_number-next_month :
    (year mon day : ℕ)
    → 1 ≤ mon
    → mon < 12
    → day ≡ days_in year mon
    → 1 ≤ day
    → day_number year (suc mon) 1 ≡ suc (day_number year mon day)
unfolding day_number
day_number-next_month year mon day h k e l =
    let leap : bit (ltb 2 (suc mon) && is_leap_year year)
        ≡ bit (ltb 2 mon && is_leap_year year) + bit (mon == 2 && is_leap_year year) =
      ground arith in
    omega (arith, month_table mon h k, leap)

day_number-next_year :
    (year day : ℕ)
    → 1970 ≤ year
    → day ≡ 31
    → day_number (suc year) 1 1 ≡ suc (day_number year 12 day)
unfolding day_number
day_number-next_year year day h e = omega (arith, leap_days-suc year h)

abbrev number : CalendarDate → ℕ
number date = day_number date.year date.mon date.day

module _ (year mon day : ℕ) (d : IsDate (record { year = year; mon = mon; day = day })) where
  next_month-IsDate : mon < 12 → IsDate (record { year = year; mon = suc mon; day = 1 })
  next_month-IsDate h = record {
    since = d.since;
    first_month = omega arith;
    last_month = h;
    first_day = omega arith;
    last_day = omega (arith, month_table mon d.first_month h);
  }

  next_day-IsDate :
      IsDate (next_day (record { year = year; mon = mon; day = day }))
      × (number (next_day (record { year = year; mon = mon; day = day }))
          ≡ suc (day_number year mon day))
  next_day-IsDate = elim (Bool-cases (ltb day (days_in year mon))) [
    | inl e ↦ rw e (
      record {
        since = d.since;
        first_month = d.first_month;
        last_month = d.last_month;
        first_day = omega arith;
        last_day = (ltb_iff day (days_in year mon)).0 e;
      },
      unfold day_number in omega (arith, d.first_day),
    )
    | inr e ↦
        let last : day ≡ days_in year mon = ground (arith, d.last_day) in
        elim (Bool-cases (ltb mon 12)) [
          | inl k ↦
              let room : mon < 12 = (ltb_iff mon 12).0 k in
              rw e (
                rw k (
                  next_month-IsDate room,
                  day_number-next_month year mon day d.first_month room last d.first_day,
                ))
          | inr k ↦
              let december : mon ≡ 12 = ground (arith, d.last_month) in
              rw e (
                rw k (
                  record {
                    since = omega (arith, d.since);
                    first_month = omega arith;
                    last_month = omega arith;
                    first_day = omega arith;
                    last_day = omega arith;
                  },
                  rw december (day_number-next_year year day d.since (rw december at last)),
                ))
        ]
  ]

-- The day number is the number of days since 1 January 1970, and every day of the calendar is a date.
pub days_after-IsDate : (n : ℕ) → IsDate (days_after n) × (number (days_after n) ≡ n)
days_after-IsDate zero = (
  record {
    since = omega arith;
    first_month = omega arith;
    last_month = omega arith;
    first_day = omega arith;
    last_day = omega arith;
  },
  unfold day_number leap_days in refl,
)
days_after-IsDate (suc n) =
    let (d, e) = days_after-IsDate n in
    let next = next_day-IsDate (days_after n).year (days_after n).mon (days_after n).day d in
    (next.0, next.1 ∙ ap suc e)
