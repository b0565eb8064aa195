-- ===== src/Payroll/Months.antt =====
-- What the months charge for leaves.
use native.Mathlib.Nat.{mul-add}
use leave_management_system.Prelude.{
  ℕ, zero, suc, ◌≡◌, ◌⊎◌, inl, inr, ◌≤◌, ◌+◌, ◌-◌, ◌*◌, refl, sym, ap, ◌∙◌, List, [], ◌∷◌, arith,
  keep, leb, ◌&&◌, Bool-cases, if◌then◌else◌,
}
use leave_management_system.Models.Leave.{Leave}
use leave_management_system.Leave.Days.{is_holiday, is_working_day, count_working_days}
use leave_management_system.Payroll.Absence.{day_amount, absent_days, actual_days, later, earlier}

-- The holidays that the query of a month finds.
abbrev pub within : ℕ → ℕ → List ℕ → List ℕ
within first last holidays = keep (λ h. leb first h && leb h last) holidays

within-is_holiday :
    (first last d : ℕ) (holidays : List ℕ)
    → first ≤ d
    → d ≤ last
    → is_holiday (within first last holidays) d ≡ is_holiday holidays d
within-is_holiday first last d [] a b = refl
within-is_holiday first last d (h ∷ holidays) a b =
    grind (arith, within-is_holiday first last d holidays a b)

absent_days-within :
    (first last amount d n : ℕ) (holidays : List ℕ)
    → first ≤ d
    → d + n ≤ last + 1
    → absent_days (within first last holidays) amount d n ≡ absent_days holidays amount d n
unfolding absent_days is_working_day
absent_days-within first last amount d zero holidays a b = refl
absent_days-within first last amount d (suc n) holidays a b = grind (
  arith,
  within-is_holiday first last d holidays a (omega arith),
  absent_days-within first last amount (d + 1) n holidays (omega arith) (omega arith),
)

absent_days-+ :
    (holidays : List ℕ) (amount d m n : ℕ)
    → absent_days holidays amount d (m + n)
      ≡ absent_days holidays amount d m + absent_days holidays amount (d + m) n
unfolding absent_days
absent_days-+ holidays amount d zero n = grind arith
absent_days-+ holidays amount d (suc m) n = grind (arith, absent_days-+ holidays amount (d + 1) m n)

pub absent_days-* :
    (holidays : List ℕ) (amount d n : ℕ)
    → absent_days holidays amount d n ≡ amount * count_working_days holidays d n
unfolding absent_days count_working_days
absent_days-* holidays amount d zero = grind arith
absent_days-* holidays amount d (suc n) = grind (
  arith,
  mul-add amount (if is_working_day holidays d then 1 else 0)
      (count_working_days holidays (d + 1) n),
  absent_days-* holidays amount (d + 1) n,
)

later-left : (a b : ℕ) → b ≤ a → later a b ≡ a
later-left a b h = ground arith

later-right : (a b : ℕ) → a ≤ b → later a b ≡ b
later-right a b h = ground arith

earlier-left : (a b : ℕ) → a ≤ b → earlier a b ≡ a
earlier-left a b h = ground arith

earlier-right : (a b : ℕ) → b ≤ a → earlier a b ≡ b
earlier-right a b h = ground arith

pub nothing : (holidays : List ℕ) (amount d n : ℕ) → n ≡ 0 → absent_days holidays amount d n ≡ 0
unfolding absent_days
nothing holidays amount d zero e = refl
nothing holidays amount d (suc n) e = omega arith

-- The days of the leave in the first month, and in the second.
abbrev in_month : ℕ → ℕ → Leave → ℕ
in_month first last leave = earlier leave.end_date last + 1 - later leave.start_date first

pub actual_days-within :
    (first last : ℕ) (holidays : List ℕ) (leave : Leave)
    → actual_days (within first last holidays) first last leave
      ≡ absent_days holidays
          (day_amount leave)
          (later leave.start_date first)
          (in_month first last leave)
unfolding actual_days
actual_days-within first last holidays leave =
    elim (Bool-cases (leb (later leave.start_date first) (earlier leave.end_date last))) [
      | inl p ↦
          absent_days-within first last (day_amount leave) (later leave.start_date first)
            (in_month first last leave) holidays (ground arith) (ground arith)
      | inr p ↦
          nothing (within first last holidays) (day_amount leave) (later leave.start_date first)
            (in_month first last leave) (ground arith)
          ∙ sym (
              nothing holidays (day_amount leave) (later leave.start_date first)
                (in_month first last leave) (ground arith))
    ]

join :
    (holidays : List ℕ) (amount start n d₁ n₁ d₂ n₂ : ℕ)
    → d₁ ≡ start
    → n₁ + n₂ ≡ n
    → (d₂ ≡ start + n₁) ⊎ (n₂ ≡ 0)
    → absent_days holidays amount d₁ n₁ + absent_days holidays amount d₂ n₂
      ≡ absent_days holidays amount start n
join holidays amount start n d₁ n₁ d₂ n₂ same total (inl next) =
    rw (same, next)
      (sym (absent_days-+ holidays amount start n₁ n₂)
        ∙ ap (absent_days holidays amount start) total)
join holidays amount start n d₁ n₁ d₂ n₂ same total (inr none_left) =
    rw (same, nothing holidays amount d₂ n₂ none_left)
      (omega arith ∙ ap (absent_days holidays amount start) n₁-all)
  where
    n₁-all : n₁ ≡ n
    n₁-all = omega arith

module _ (holidays : List ℕ) (leave : Leave) (first end last : ℕ) where
  both_months :
      first ≤ leave.start_date
      → leave.start_date ≤ leave.end_date
      → leave.end_date ≤ last
      → first ≤ end
      → end ≤ last
      → absent_days holidays
            (day_amount leave)
            (later leave.start_date first)
            (in_month first end leave)
          + absent_days holidays
              (day_amount leave)
              (later leave.start_date (end + 1))
              (in_month (end + 1) last leave)
        ≡ absent_days holidays
            (day_amount leave)
            leave.start_date
            (leave.end_date + 1 - leave.start_date)
  both_months a b c d e =
      join holidays (day_amount leave) leave.start_date (leave.end_date + 1 - leave.start_date)
        (later leave.start_date first) (in_month first end leave) (later leave.start_date (end + 1))
        (in_month (end + 1) last leave) (later-left leave.start_date first a) (ground arith)
        (elim (Bool-cases (leb leave.end_date end)) [
          | inl p ↦ inr (ground arith)
          | inr p ↦ inl (ground arith)
        ])

  -- Two adjacent months together charge a leave that lies in them for each of its working days
  -- once: what the first month charges and what the second one charges, each with the holidays of
  -- its own, is the working days of the whole leave.
  pub actual_days-months :
      first ≤ leave.start_date
      → leave.start_date ≤ leave.end_date
      → leave.end_date ≤ last
      → first ≤ end
      → end ≤ last
      → actual_days (within first end holidays) first end leave
          + actual_days (within (end + 1) last holidays) (end + 1) last leave
        ≡ day_amount leave
          * count_working_days holidays leave.start_date (leave.end_date + 1 - leave.start_date)
  actual_days-months a b c d e =
      rw
        (
          actual_days-within first end holidays leave,
          actual_days-within (end + 1) last holidays leave,
        )
        (both_months a b c d e)
      ∙ absent_days-* holidays (day_amount leave) leave.start_date
          (leave.end_date + 1 - leave.start_date)
