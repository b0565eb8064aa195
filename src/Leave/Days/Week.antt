-- ===== src/Leave/Days/Week.antt =====
-- `CalculateWorkingDays` against the days of the week and the stored holidays.
use leave_management_system.Prelude.{
  ℕ, zero, suc, ◌≡◌, ◌≤◌, ◌+◌, ◌-◌, ◌%◌, refl, sym, ◌∙◌, ap, inl, inr, Bool, true, false, not, ◌&&◌,
  ◌||◌, List, [], ◌∷◌, ◌==◌, leb, ltb, any, keep, length, arith, Bool-cases,
}
use leave_management_system.Database.{ok, statement, select}
use leave_management_system.Tables.{Tables, get_holidays_between}
use leave_management_system.Leave.Days.{
  is_weekend, is_working_day, count_working_days, calculate_working_days,
}
use leave_management_system.Leave.Days.Bounds.{days_from}

pub data Weekday : Type 0 where
  monday tuesday wednesday thursday friday saturday sunday : Weekday

abbrev pub next_day : Weekday → Weekday
next_day monday = tuesday
next_day tuesday = wednesday
next_day wednesday = thursday
next_day thursday = friday
next_day friday = saturday
next_day saturday = sunday
next_day sunday = monday

-- The first day, 1 January of the year 1, is a Monday.
abbrev pub weekday : ℕ → Weekday
weekday zero = monday
weekday (suc d) = next_day (weekday d)

abbrev pub is_rest : Weekday → Bool
is_rest saturday = true
is_rest sunday = true
is_rest _ = false

-- No Saturday, no Sunday and no holiday.
abbrev pub is_open : List ℕ → ℕ → Bool
is_open holidays d = not (is_rest (weekday d)) && not (any (λ h. h == d) holidays)

abbrev code : Weekday → ℕ
code monday = 0
code tuesday = 1
code wednesday = 2
code thursday = 3
code friday = 4
code saturday = 5
code sunday = 6

next_day-code : (w : Weekday) → code (next_day w) ≡ (code w + 1) % 7
next_day-code monday = refl
next_day-code tuesday = refl
next_day-code wednesday = refl
next_day-code thursday = refl
next_day-code friday = refl
next_day-code saturday = refl
next_day-code sunday = refl

weekday-code : (d : ℕ) → code (weekday d) ≡ d % 7
weekday-code zero = refl
weekday-code (suc d) = next_day-code (weekday d) ∙ (let ih = weekday-code d in omega arith)

rest-code : (w : Weekday) → is_rest w ≡ (code w == 5 || code w == 6)
rest-code monday = refl
rest-code tuesday = refl
rest-code wednesday = refl
rest-code thursday = refl
rest-code friday = refl
rest-code saturday = refl
rest-code sunday = refl

is_weekend-rest : (d : ℕ) → is_weekend d ≡ is_rest (weekday d)
unfolding is_weekend
is_weekend-rest d = ap (λ n. n == 5 || n == 6) (sym (weekday-code d)) ∙ sym (rest-code (weekday d))

abbrev within : ℕ → ℕ → List ℕ → List ℕ
within lo hi holidays = keep (λ h. leb lo h && leb h hi) holidays

within-any :
    (lo hi d : ℕ) (holidays : List ℕ)
    → leb lo d ≡ true
    → leb d hi ≡ true
    → any (λ h. h == d) (within lo hi holidays) ≡ any (λ h. h == d) holidays
within-any lo hi d [] low high = refl
within-any lo hi d (h ∷ holidays) low high =
    let ih = within-any lo hi d holidays low high in
    elim (Bool-cases (leb lo h && leb h hi)) [
      | inl p ↦ rw (p, ih) refl
      | inr p ↦ rw (p, ih) (ground arith)
    ]

working_day-open :
    (lo hi d : ℕ) (holidays : List ℕ)
    → lo ≤ d
    → d ≤ hi
    → is_working_day (within lo hi holidays) d ≡ is_open holidays d
unfolding is_working_day
working_day-open lo hi d holidays low high =
    let seen = within-any lo hi d holidays (ground arith) (ground arith) in
    rw (is_weekend-rest d, seen) refl

count-open :
    (lo hi d m : ℕ) (holidays : List ℕ)
    → lo ≤ d
    → d + m ≤ hi + 1
    → count_working_days (within lo hi holidays) d m
      ≡ length (keep (is_open holidays) (days_from d m))
unfolding count_working_days
count-open lo hi d zero holidays low high = refl
count-open lo hi d (suc m) holidays low high =
    let ih = count-open lo hi (d + 1) m holidays (omega arith) (omega arith) in
    let same = working_day-open lo hi d holidays low (omega arith) in
    elim (Bool-cases (is_open holidays d)) [
      | inl p ↦ rw (same, ih, p) (omega arith)
      | inr p ↦ rw (same, ih, p) (omega arith)
    ]

-- Where no statement fails, the working days from one day to another are the days from the first to
-- the last, both included, that are no Saturday, no Sunday and no stored holiday; no table changes.
pub calculate_working_days-counts :
    (start n : ℕ) (s : Tables)
    → calculate_working_days start (start + n) (record { db = s; faults = [] }) ≡ (
      ok (length (keep (is_open s.holidays) (days_from start (n + 1)))),
      record { db = s; faults = [] },
    )
unfolding calculate_working_days get_holidays_between select statement
calculate_working_days-counts start n s =
    let ordered : ltb (start + n) start ≡ false = ground arith in
    let days : start + n + 1 - start ≡ n + 1 = omega arith in
    rw
      (
        ordered,
        days,
        count-open start (start + n) start (n + 1) s.holidays (omega arith) (omega arith),
      )
      refl
