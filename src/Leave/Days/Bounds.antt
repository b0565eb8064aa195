-- ===== src/Leave/Days/Bounds.antt =====
-- Bounds of working days, entitlements and times.
use native.Mathlib.Nat.{mul-le-mul_left}
use leave_management_system.Prelude.{
  ℕ, zero, suc, ◌≡◌, ◌≤◌, ◌+◌, ◌-◌, ◌*◌, refl, List, [], ◌∷◌, arith,
}
use leave_management_system.Database.{ok}
use leave_management_system.Leave.Days.{
  is_weekend, is_working_day, count_working_days, calculate_prorated_leave, prorated_leave,
  validate_leave_timing,
}

-- The days of a period: `n` days from `d` on.
abbrev pub days_from : ℕ → ℕ → List ℕ
days_from d zero = []
days_from d (suc n) = d ∷ days_from (d + 1) n

-- The working days of two periods, one behind the other, add up.
count_working_days-+ :
    (holidays : List ℕ) (d m n : ℕ)
    → count_working_days holidays d (m + n)
      ≡ count_working_days holidays d m + count_working_days holidays (d + m) n
unfolding count_working_days
count_working_days-+ holidays d zero n = grind arith
count_working_days-+ holidays d (suc m) n = grind (arith, count_working_days-+ holidays (d + 1) m n)

week : (d : ℕ) → count_working_days [] d 7 ≡ 5
unfolding count_working_days is_working_day is_weekend
week d = ground arith

-- Without holidays, any `n` weeks have `5 n` working days, whichever day they start on.
count_working_days-weeks : (d n : ℕ) → count_working_days [] d (n * 7) ≡ n * 5
unfolding count_working_days
count_working_days-weeks d zero = refl
count_working_days-weeks d (suc n) =
    grind (arith, count_working_days-+ [] d 7 (n * 7), week d, count_working_days-weeks (d + 7) n)

-- For a month of the year the entitlement from that month on is at most the yearly one, the whole
-- of it from January on, and the service and the repository compute the same.
prorated_leave-agree :
    (yearly_leave join_month : ℕ)
    → 1 ≤ join_month
    → join_month ≤ 12
    → (calculate_prorated_leave yearly_leave join_month ≡ prorated_leave yearly_leave join_month)
      × (prorated_leave yearly_leave join_month ≤ yearly_leave)
      × (prorated_leave yearly_leave 1 ≡ yearly_leave)
unfolding calculate_prorated_leave prorated_leave
prorated_leave-agree yearly_leave join_month low high =
    let share : yearly_leave * (12 - join_month + 1) ≤ yearly_leave * 12 =
      mul-le-mul_left yearly_leave (omega arith) in
    ground arith

-- Who joins later is not entitled to more.
prorated_leave-antitone :
    (yearly_leave early late : ℕ)
    → 1 ≤ early
    → early ≤ late
    → late ≤ 12
    → prorated_leave yearly_leave late ≤ prorated_leave yearly_leave early
unfolding prorated_leave
prorated_leave-antitone yearly_leave early late a b c =
    let share : yearly_leave * (12 - late + 1) ≤ yearly_leave * (12 - early + 1) =
      mul-le-mul_left yearly_leave (omega arith) in
    ground arith

-- A time of day that is accepted lies between 10:00 and 19:00.
validate_leave_timing-bounds :
    (leave_timing : List ℕ) (minutes : ℕ)
    → validate_leave_timing leave_timing ≡ ok minutes
    → (600 ≤ minutes) × (minutes ≤ 1140)
unfolding validate_leave_timing
validate_leave_timing-bounds leave_timing minutes e = ground arith
