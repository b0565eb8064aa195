-- ===== src/Payroll/Bounds.antt =====
-- A month charges no day twice.
use leave_management_system.Prelude.{
  ℕ, zero, suc, ◌≡◌, ◌⊎◌, inl, inr, ◌≤◌, ◌<◌, ◌+◌, ◌-◌, ◌*◌, refl, ap, true, false, List, [], ◌∷◌,
  arith, keep, leb, ltb, ◌&&◌, Bool-cases, Option-cases, if◌then◌else◌, sum_by, All,
}
use leave_management_system.Models.Leave.{Leave, LeaveType, is_early_leave}
use leave_management_system.Database.{ok}
use leave_management_system.Database.Outcomes.{After-ok}
use leave_management_system.Leave.Days.{is_working_day, count_working_days}
use leave_management_system.Payroll.Store.{Store, Months}
use leave_management_system.Payroll.Absence.{
  LeaveSummary, day_amount, absent_days, actual_days, later, earlier, sum_absences, absences,
  type_of, overlaps, calculate_absent_days_for_month,
}
use leave_management_system.Payroll.Months.{within, nothing}
use leave_management_system.Payroll.Agreement.{quiet, absent_days-quiet}

-- What a leave charges for a day.
abbrev cover : ℕ → Leave → ℕ
cover d l = if leb l.start_date d && leb d l.end_date then day_amount l else 0

abbrev charge : List ℕ → ℕ → ℕ → ℕ
charge holidays d amount = if is_working_day holidays d then amount else 0

-- The days of a leave among the `n` days from `d` on.
abbrev span : List ℕ → ℕ → ℕ → Leave → ℕ
span holidays d n l =
    absent_days holidays (day_amount l) (later l.start_date d)
      (earlier (l.end_date + 1) (d + n) - later l.start_date d)

module _ (holidays : List ℕ) (amount : ℕ) where
  not_yet :
      (x d m e n : ℕ)
      → x ≡ 0
      → d ≡ e
      → m ≡ n
      → absent_days holidays amount d m ≡ x + absent_days holidays amount e n
  not_yet x d m e n a p q = rw (a, p, q) (omega arith)

  one_day :
      (x d d₁ m e n : ℕ)
      → x ≡ charge holidays d amount
      → d₁ ≡ d
      → m ≡ suc n
      → e ≡ d + 1
      → absent_days holidays amount d₁ m ≡ x + absent_days holidays amount e n
  unfolding absent_days
  one_day x d d₁ m e n a p q r = rw (a, p, q, r) refl

  no_more :
      (x d m e n : ℕ)
      → x ≡ 0
      → m ≡ 0
      → n ≡ 0
      → absent_days holidays amount d m ≡ x + absent_days holidays amount e n
  unfolding absent_days
  no_more x d m e n a p q = rw (a, p, q) refl

uncovered :
    (holidays : List ℕ) (d : ℕ) (l : Leave)
    → (d < l.start_date) ⊎ (l.end_date < d)
    → charge holidays d (cover d l) ≡ 0
uncovered holidays d l h = ground arith

covered :
    (holidays : List ℕ) (d : ℕ) (l : Leave)
    → l.start_date ≤ d
    → d ≤ l.end_date
    → charge holidays d (cover d l) ≡ charge holidays d (day_amount l)
covered holidays d l a b = ground arith

-- How many days of the leave lie among the `n` days from `d` on.
abbrev extent : ℕ → ℕ → Leave → ℕ
extent d n l = earlier (l.end_date + 1) (d + n) - later l.start_date d

span-suc :
    (holidays : List ℕ) (d n : ℕ) (l : Leave)
    → span holidays d (suc n) l ≡ charge holidays d (cover d l) + span holidays (d + 1) n l
span-suc holidays d n l =
    let x = charge holidays d (cover d l) in
    let here = later l.start_date d in
    let next = later l.start_date (d + 1) in
    elim (Bool-cases (ltb d l.start_date)) [
      | inl before ↦
          not_yet holidays (day_amount l) x here (extent d (suc n) l) next (extent (d + 1) n l)
            (uncovered holidays d l (inl (ground arith))) (ground arith) (ground arith)
      | inr p ↦ elim (Bool-cases (leb d l.end_date)) [
        | inl q ↦
            one_day holidays (day_amount l) x d here (extent d (suc n) l) next (extent (d + 1) n l)
              (covered holidays d l (ground arith) (ground arith)) (ground arith) (ground arith)
              (ground arith)
        | inr q ↦
            no_more holidays (day_amount l) x here (extent d (suc n) l) next (extent (d + 1) n l)
              (uncovered holidays d l (inr (ground arith))) (ground arith) (ground arith)
      ]
    ]

-- No two leaves share a day.
abbrev Apart : Leave → Leave → Type 0
Apart l m = (l.end_date < m.start_date) ⊎ (m.end_date < l.start_date)

abbrev pub Separate : List Leave → Type 0
Separate [] = Unit
Separate (l ∷ ls) = All (Apart l) ls × Separate ls

cover-Apart :
    (d : ℕ) (l : Leave) (ls : List Leave)
    → All (Apart l) ls
    → (leb l.start_date d && leb d l.end_date) ≡ true
    → sum_by (cover d) ls ≡ 0
cover-Apart d l [] h e = refl
cover-Apart d l (m ∷ ls) h e = ground (arith, cover-Apart d l ls h.1 e, h.0)

cover-Separate : (d : ℕ) (ls : List Leave) → Separate ls → sum_by (cover d) ls ≤ 2
cover-Separate d [] h = omega arith
cover-Separate d (l ∷ ls) h = elim (Bool-cases (leb l.start_date d && leb d l.end_date)) [
  | inl p ↦ ground (arith, cover-Apart d l ls h.0 p)
  | inr p ↦ ground (arith, cover-Separate d ls h.1)
]

spans-suc :
    (holidays : List ℕ) (d n : ℕ) (ls : List Leave)
    → sum_by (span holidays d (suc n)) ls
      ≡ charge holidays d (sum_by (cover d) ls) + sum_by (span holidays (d + 1) n) ls
spans-suc holidays d n [] = ground arith
spans-suc holidays d n (l ∷ ls) = grind (arith, span-suc holidays d n l, spans-suc holidays d n ls)

spans_zero : (holidays : List ℕ) (d : ℕ) (ls : List Leave) → sum_by (span holidays d 0) ls ≡ 0
spans_zero holidays d [] = refl
spans_zero holidays d (l ∷ ls) = grind (
  arith,
  nothing holidays (day_amount l) (later l.start_date d) (extent d 0 l) (ground arith),
  spans_zero holidays d ls,
)

spans-≤ :
    (holidays : List ℕ) (d n : ℕ) (ls : List Leave)
    → Separate ls
    → sum_by (span holidays d n) ls ≤ 2 * count_working_days holidays d n
unfolding count_working_days
spans-≤ holidays d zero ls h = ground (arith, spans_zero holidays d ls)
spans-≤ holidays d (suc n) ls h =
    ground
      (arith, spans-suc holidays d n ls, cover-Separate d ls h, spans-≤ holidays (d + 1) n ls h)

actual_days-span :
    (holidays : List ℕ) (first last : ℕ) (l : Leave)
    → first ≤ last
    → actual_days holidays first last l ≡ span holidays first (last + 1 - first) l
unfolding actual_days
actual_days-span holidays first last l h =
    ap (absent_days holidays (day_amount l) (later l.start_date first)) (ground arith)

module _ (holidays : List ℕ) (first last : ℕ) (leave_types : List LeaveType) where
  sum_absences-≤ :
      first ≤ last
      → (ls : List Leave)
      → sum_absences holidays first last true (absences leave_types ls)
          + sum_absences holidays first last false (absences leave_types ls)
        ≤ sum_by (span holidays first (last + 1 - first)) ls
  sum_absences-≤ h [] = omega arith
  sum_absences-≤ h (l ∷ ls) =
      let rest = sum_absences-≤ h ls in
      let same = actual_days-span holidays first last l h in
      elim (Option-cases (type_of leave_types l)) [
        | inl e ↦ ground (arith, rest)
        | inr (t, e) ↦ elim (Bool-cases (is_early_leave t)) [
          | inl early ↦ ground (arith, rest)
          | inr late ↦ elim (Bool-cases t.is_paid) [
            | inl paid ↦ ground (arith, rest, same)
            | inr unpaid ↦ ground (arith, rest, same)
          ]
        ]
      ]

-- What a month charges an employee whose approved leaves share no day, paid and unpaid together,
-- is at most the month's working days, where no statement fails.
pub absent_days-bound :
    {F : Type 0} (months : Months) (e month year : ℕ) (s : Store F) (summary : LeaveSummary)
    → months.first_day month year ≤ months.last_day month year
    → Separate (
        keep
          (overlaps e (months.first_day month year) (months.last_day month year))
          s.leave_tables.leaves)
    → (calculate_absent_days_for_month months e month year (quiet s)).0 ≡ ok summary
    → summary.paid_days + summary.unpaid_days
      ≤ 2
        * count_working_days
            (within
              (months.first_day month year)
              (months.last_day month year)
              s.leave_tables.holidays)
            (months.first_day month year)
            (months.last_day month year + 1 - months.first_day month year)
absent_days-bound months e month year s summary ordered apart done =
    let first = months.first_day month year in
    let last = months.last_day month year in
    let holidays = within first last s.leave_tables.holidays in
    let leaves = keep (overlaps e first last) s.leave_tables.leaves in
    let bounded = sum_absences-≤ holidays first last s.leave_tables.leave_types ordered leaves in
    let all_days = spans-≤ holidays first (last + 1 - first) leaves apart in
    After-ok
      (λ x _.
        x.paid_days + x.unpaid_days ≤ 2 * count_working_days holidays first (last + 1 - first))
      summary (calculate_absent_days_for_month months e month year (quiet s))
      (rw (absent_days-quiet months s e month year) (omega arith)) done
