-- ===== src/Leave/Days.antt =====
-- Working days, timings and entitlements: internal/service/common.go, and `proratedLeave` of
-- internal/repositories/leaveBalance.go. Days since 1 January of the year 1, a Monday: the day of
-- the week of `d` is `d % 7`, with Saturday 5 and Sunday 6.
pub mod Bounds
pub mod Week
use leave_management_system.Prelude.{
  ℕ, zero, suc, ◌+◌, ◌-◌, ◌*◌, ◌/◌, ◌%◌, Bool, ◌||◌, ◌&&◌, not, List, [], ◌∷◌, Option, none, some,
  ◌==◌, ltb, leb, any, if◌then◌else◌, String,
}
use leave_management_system.Prelude.Int.{pos, ltb_ℤ}
use leave_management_system.Models.Leave.{is_true}
use leave_management_system.Database.{
  Action, app, plain, pure, fail, annotate, Result, ok, err, ◌>>=◌, ◌>>◌,
}
use leave_management_system.Tables.{
  Tables, Calendar, get_holidays_between, get_leave_type_by_id, get_total_paid_leave_balance,
  get_total_pending_paid_leave_days,
}

unfoldable pub is_weekend : ℕ → Bool
is_weekend d = d % 7 == 5 || d % 7 == 6

-- `holidayMap[d]`
abbrev pub is_holiday : List ℕ → ℕ → Bool
is_holiday holidays d = any (λ h. h == d) holidays

-- The body of the loop counts this day.
unfoldable pub is_working_day : List ℕ → ℕ → Bool
unfolding is_weekend
is_working_day holidays d = not (is_weekend d) && not (is_holiday holidays d)

-- The loop from `d` over `n` days.
unfoldable pub count_working_days : List ℕ → ℕ → ℕ → ℕ
count_working_days holidays d zero = 0
count_working_days holidays d (suc n) =
    (if is_working_day holidays d then 1 else 0) + count_working_days holidays (d + 1) n

unfoldable pub calculate_working_days : ℕ → ℕ → Action Tables ℕ
calculate_working_days start end =
    if ltb end start then fail (plain "end date cannot be before start date") else (do
      holidays ← annotate "failed to fetch holidays: " (get_holidays_between start end)
      pure (count_working_days holidays start (end + 1 - start)))

-- In half days, so a full day counts 2.
unfoldable pub apply_timing_multiplier : ℕ → ℕ → Option ℕ
apply_timing_multiplier base_days timing_id =
    if timing_id == 1 || timing_id == 2
    then some base_days
    else if timing_id == 3
    then some (2 * base_days)
    else none

-- A leave timing that was given, in minutes, overrides the half-day multiplier.
unfoldable pub calculate_working_days_with_timing : ℕ → ℕ → ℕ → Option ℕ → Action Tables ℕ
calculate_working_days_with_timing start end timing_id leave_timing = do
  base_days ← calculate_working_days start end
  elim leave_timing [
    | some minutes ↦ pure (2 * base_days)
    | none ↦ elim (apply_timing_multiplier base_days timing_id) [
      | none ↦ fail (plain "invalid timing ID")
      | some days ↦ pure days
    ]
  ]

module _ (cal : Calendar) where
  unfoldable pub validate_unpaid_leave_application : ℕ → ℕ → Action Tables (Unit {0})
  validate_unpaid_leave_application employee_id leave_type_id = do
    result ← annotate "failed to fetch leave type: " (get_leave_type_by_id leave_type_id)
    if result.is_paid then pure tt else if is_true result.is_early then pure tt else (do
      total_paid_balance ←
          annotate "failed to fetch paid leave balance: "
            (get_total_paid_leave_balance cal employee_id)
      total_pending_paid_days ←
          annotate "failed to fetch pending paid leave days: "
            (get_total_pending_paid_leave_days cal employee_id)
      if ltb_ℤ (pos 0) total_paid_balance && ltb 0 total_pending_paid_days
          then fail (plain "cannot apply for unpaid leave: balance and pending paid leaves")
          else if ltb_ℤ (pos 0) total_paid_balance
          then fail (plain "cannot apply for unpaid leave: balance remaining")
          else if ltb 0 total_pending_paid_days
          then fail (plain "cannot apply for unpaid leave: pending paid leaves")
          else pure tt)

-- `CalculateProratedLeave` of the service.
unfoldable pub calculate_prorated_leave : ℕ → ℕ → ℕ
calculate_prorated_leave yearly_leave join_month =
    if ltb join_month 1 || ltb 12 join_month then 0 else yearly_leave * (12 - join_month + 1) / 12

-- `proratedLeave` of the repository.
unfoldable pub prorated_leave : ℕ → ℕ → ℕ
prorated_leave yearly_leave join_month =
    if ltb join_month 1 || ltb 12 join_month
    then yearly_leave
    else yearly_leave * (12 - join_month + 1) / 12

-- `getnum` of the time package: one or two digits, or two where `fixed`.
abbrev is_digit : ℕ → Bool
is_digit c = leb b'0' c && leb c b'9'

abbrev digit : ℕ → ℕ
digit c = c - b'0'

-- `15`, then `:`, then `04`, and nothing behind.
parse_minutes : ℕ → List ℕ → Option (ℕ × ℕ)
parse_minutes hour (c ∷ d ∷ e ∷ []) =
    if c == b':' && is_digit d && is_digit e && ltb hour 24 && ltb (10 * digit d + digit e) 60
    then some (hour, 10 * digit d + digit e)
    else none
parse_minutes hour _ = none

unfoldable pub parse_clock : List ℕ → Option (ℕ × ℕ)
unfolding parse_minutes
parse_clock [] = none
parse_clock (a ∷ []) = none
parse_clock (a ∷ b ∷ rest) =
    if not (is_digit a)
    then none
    else if is_digit b
    then parse_minutes (10 * digit a + digit b) rest
    else parse_minutes (digit a) (b ∷ rest)

-- The accepted time, in minutes.
unfoldable pub validate_leave_timing : List ℕ → Result ℕ
validate_leave_timing leave_timing = elim (parse_clock leave_timing) [
  | none ↦ err (plain "invalid leave_timing format, expected HH:MM")
  | some (hour, minute) ↦
      if ltb (hour * 60 + minute) (10 * 60 + 0)
      then err (plain "leave_timing must be after 10:00 AM")
      else if ltb (19 * 60 + 0) (hour * 60 + minute)
      then err (plain "leave_timing must be before 7:00 PM")
      else ok (hour * 60 + minute)
]
