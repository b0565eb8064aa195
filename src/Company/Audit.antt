-- ===== src/Company/Audit.antt =====
-- What the audit log says of the designations, after each change of the tables.
use leave_management_system.Prelude.{
  ℕ, zero, suc, ◌≢◌, ◌≤◌, ◌+◌, Bool, true, false, List, [], ◌∷◌, keep, length, All, map, arith,
}
use leave_management_system.Prelude.Int.{ℤ, pos, negsuc}
use leave_management_system.Company.Defs.{
  DesignationInput, CompanyField, Upload, Store, LogAction, Component, CompanySettings,
  add_designation, rename_designation, drop_designation, push_log, new_common, set_settings,
  or_twenty_two, change_settings,
}
use leave_management_system.Company.Rows.{
  Descending, AreKnown, without-Descending, length-without, rename-Descending, length-rename,
  add-AreKnown, rename-AreKnown, without-AreKnown,
}

abbrev tells : Component → LogAction → LogAction → Bool
tells Component.designation LogAction.action_create LogAction.action_create = true
tells Component.designation LogAction.action_delete LogAction.action_delete = true
tells _ _ _ = false

abbrev pub creations : Store → ℕ
creations s = length (keep (λ l. tells l.component l.action LogAction.action_create) s.logs)

abbrev pub deletions : Store → ℕ
deletions s = length (keep (λ l. tells l.component l.action LogAction.action_delete) s.logs)

-- There are at most as many designations as the log has creations, and at most as many are gone
-- as the log has deletions.
abbrev pub IsAudited : Store → Type 0
IsAudited s =
    (length s.designations ≤ creations s) × (creations s ≤ length s.designations + deletions s)

-- No settings with 0 working days.
abbrev pub IsWorkable : Store → Type 0
IsWorkable s = All (λ c. c.working_days_per_month ≢ pos 0) s.settings

abbrev pub IsSound : Store → Type 0
IsSound s =
    Descending s.next_id s.designations
    × AreKnown s.designations s.holders
    × IsAudited s
    × IsWorkable s

abbrev pub logged_with : Component → LogAction → ℕ → Store → Store
logged_with component action user s = push_log (new_common component action user) s

pub add-IsSound :
    (input : DesignationInput) (user : ℕ) (s : Store)
    → IsSound s
    → IsSound
        (logged_with Component.designation LogAction.action_create user (add_designation input s).1)
add-IsSound input user s h = (
  (omega arith, h.0),
  add-AreKnown
      (record {
        id = s.next_id;
        designation_name = input.designation_name;
        description = input.description;
      })
      s.designations s.holders h.1,
  (omega arith, omega arith),
  h.3,
)

pub rename-IsSound :
    (id : ℕ) (input : DesignationInput) (user : ℕ) (s : Store)
    → IsSound s
    → IsSound (
        logged_with Component.designation LogAction.action_update user
          (rename_designation id input s))
rename-IsSound id input user s h = (
  rename-Descending id input s.next_id s.designations h.0,
  rename-AreKnown id input s.designations s.holders h.1,
  rw (length-rename id input s.designations) h.2,
  h.3,
)

pub drop-IsSound :
    (id user : ℕ) (s : Store)
    → IsSound s
    → IsSound
        (logged_with Component.designation LogAction.action_delete user (drop_designation id s))
drop-IsSound id user s h =
    let fewer = length-without id s.next_id s.designations h.0 in
    (
      without-Descending id s.next_id s.designations h.0,
      without-AreKnown id s.designations s.holders h.1,
      (omega arith, omega arith),
      h.3,
    )

or_twenty_two_positive : (n : ℤ) → or_twenty_two n ≢ pos 0
or_twenty_two_positive (pos zero) e = ground arith
or_twenty_two_positive (pos (suc n)) e = ground arith
or_twenty_two_positive (negsuc n) e = ground arith

pub settings-IsSound :
    (input : CompanyField) (logo : Upload) (user : ℕ) (s : Store)
    → IsSound s
    → IsSound (
        logged_with Component.company_settings LogAction.action_update user
          (change_settings input logo s))
settings-IsSound input logo user s h = (h.0, h.1, h.2, workable s.settings)
  where
    workable :
        (rows : List CompanySettings)
        → All (λ c. c.working_days_per_month ≢ pos 0) (map (set_settings input logo) rows)
    workable [] = tt
    workable (c ∷ rows) = (or_twenty_two_positive input.working_days, workable rows)
