-- ===== src/Company/Steps.antt =====
-- The parts of a request keep what each change of the tables keeps with its log entry.
use mathlib.Core.Path.{subst}
use leave_management_system.Prelude.{
  ℕ, ◌≡◌, ◌⊎◌, sym, inl, inr, ◌&&◌, not, Option, none, some, String,
}
use leave_management_system.Models.Role.{Role, role_eq, admin_super_admin_hr}
use leave_management_system.Database.{
  Result, ok, err, panic, World, Action, app, statement, exec, wrap, or_fail, pure,
  execute_transaction, later_faults, ◌>>=◌, ◌>>◌,
}
use leave_management_system.Database.Laws.{Atomic, Keeps, execute_transaction-Atomic, >>=-Keeps}
use leave_management_system.Database.Outcomes.{
  After, statement-After, wrap-After, exec-After, >>=-After, execute_transaction-After,
}
use leave_management_system.Database.Endings.{or_fail-Keeps, guard-Keeps}
use leave_management_system.Company.Defs.{
  CompanyField, Upload, Store, LogEntry, LogAction, Component, push_log, add_log, new_common,
  forbidden, invalid, logged, permitted, validated, write_settings, change_settings,
  update_company_settings, check_upload, handle_update_company_settings,
}
use leave_management_system.Company.Audit.{logged_with}

module _ {A : Type 0} (P : Store → Type 0) where
  -- A transaction whose success gives `P` keeps it.
  settled :
      (before : Store) (o : Result A × World Store)
      → P before
      → Atomic before o
      → After (λ _ s. P s ⊎ (s ≡ before)) o
      → P o.1.db
  settled before (ok a, w) h same (inl k) = k
  settled before (ok a, w) h same (inr e) = subst P (sym e) h
  settled before (err x, w) h same k = subst P (sym same) h
  settled before (panic, w) h same k = subst P (sym same) h

  transaction-Keeps :
      (fn : Action Store A)
      → ((w : World Store) → P w.db → After (λ _ s. P s) (fn w))
      → Keeps P (execute_transaction fn)
  transaction-Keeps fn k w h =
      settled w.db (execute_transaction fn w) h (execute_transaction-Atomic fn w) (
        execute_transaction-After (λ _ s. P s) fn w
          (k (record w { faults = later_faults w.faults }) h))

  pub logged-Keeps :
      (message : String) (f : Store → A × Store) (entry : LogEntry)
      → ((s : Store) → P s → P (push_log entry (f s).1))
      → Keeps P (logged message (statement f) entry)
  unfolding add_log logged
  logged-Keeps message f entry k = transaction-Keeps _ (λ w h.
      >>=-After (λ _ s. P (push_log entry s)) (λ _ s. P s) (wrap 500 message (statement f))
        (λ a. wrap 500 "failed to create  degisnation log: " (add_log entry) >> pure a) w
        (wrap-After (λ _ s. P (push_log entry s)) 500 message (statement f) w
          (statement-After (λ _ s. P (push_log entry s)) f w (k w.db h)))
        (λ a w' h'.
          >>=-After (λ _ s. P s) (λ _ s. P s)
            (wrap 500 "failed to create  degisnation log: " (add_log entry)) (λ _. pure a) w'
            (wrap-After (λ _ s. P s) 500 "failed to create  degisnation log: "
              (exec (push_log entry)) w' (exec-After (λ _ s. P s) (push_log entry) w' h'))
            (λ _ w'' h''. h'')))

module _ (P : Store → Type 0) where
  forbidden-Keeps : (o : Option String) → Keeps P (forbidden o)
  forbidden-Keeps none w h = h
  forbidden-Keeps (some m) w h = h

  invalid-Keeps : (o : Option String) → Keeps P (invalid o)
  invalid-Keeps none w h = h
  invalid-Keeps (some m) w h = h

  upload-Keeps : (logo : Upload) → Keeps P (check_upload logo)
  upload-Keeps Upload.absent w h = h
  upload-Keeps (Upload.saved path) w h = h
  upload-Keeps Upload.unsaved w h = h

  module _ {A : Type 0} where
    pub validated-Keeps :
        (refusal : Option String) (m : Action Store A) → Keeps P m → Keeps P (validated refusal m)
    unfolding validated
    validated-Keeps refusal m k =
        >>=-Keeps P (invalid refusal) (λ _. m) (invalid-Keeps refusal) (λ _. k)

    pub permitted-Keeps :
        (message : String) (role : Role) (user : Option ℕ) (request : ℕ → Action Store A)
        → ((emp_id : ℕ) → Keeps P (request emp_id))
        → Keeps P (permitted message role user request)
    unfolding permitted
    permitted-Keeps message role user request k =
        >>=-Keeps P (forbidden (admin_super_admin_hr role message))
          (λ _. or_fail user (app 403 "Access Denied") >>= request)
          (forbidden-Keeps (admin_super_admin_hr role message))
          (λ _.
            >>=-Keeps P (or_fail user (app 403 "Access Denied")) request
              (or_fail-Keeps P user (app 403 "Access Denied")) k)

  module _ (input : CompanyField) (logo : Upload) where
    pub write_settings-Keeps :
        (emp_id : ℕ)
        → ((s : Store)
            → P s
            → P (
                logged_with Component.company_settings LogAction.action_update emp_id
                  (change_settings input logo s)))
        → Keeps P (write_settings input logo emp_id)
    unfolding write_settings update_company_settings add_log
    write_settings-Keeps emp_id k =
        let entry = new_common Component.company_settings LogAction.action_update emp_id in
        transaction-Keeps P (exec (change_settings input logo) >> exec (push_log entry)) (λ w h.
          >>=-After (λ _ s. P (push_log entry s)) (λ _ s. P s) (exec (change_settings input logo))
            (λ _. exec (push_log entry)) w
            (exec-After (λ _ s. P (push_log entry s)) (change_settings input logo) w (k w.db h))
            (λ _ w' h'. exec-After (λ _ s. P s) (push_log entry) w' h'))

    pub settings-Keeps :
        (role : Role) (user : Option ℕ)
        → ((emp_id : ℕ) → Keeps P (write_settings input logo emp_id))
        → Keeps P (handle_update_company_settings role user input logo)
    unfolding handle_update_company_settings
    settings-Keeps role user k =
        guard-Keeps P (not (role_eq role Role.super_admin) && not (role_eq role Role.admin))
          (app 403 "Not authorized to update settings")
          (check_upload logo >>= λ _.
            or_fail user (app 401 "Employee ID missing") >>= write_settings input logo)
          (>>=-Keeps P (check_upload logo)
            (λ _. or_fail user (app 401 "Employee ID missing") >>= write_settings input logo)
            (upload-Keeps logo)
            (λ _.
              >>=-Keeps P (or_fail user (app 401 "Employee ID missing")) (write_settings input logo)
                (or_fail-Keeps P user (app 401 "Employee ID missing")) k))
