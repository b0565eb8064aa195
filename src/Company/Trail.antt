-- ===== src/Company/Trail.antt =====
-- Requests about designations and settings, one after the other, as routes/router.go passes them to
-- the handlers.
use leave_management_system.Prelude.{ℕ, List, [], ◌∷◌, Option, String}
use leave_management_system.Models.Role.{Role}
use leave_management_system.Database.{World, exec}
use leave_management_system.Company.Defs.{
  DesignationInput, CompanyField, Upload, Store, add_designation, rename_designation,
  drop_designation, create_designation, update_designation, delete_designation,
  handle_create_designation, handle_update_designation, handle_delete_designation,
  handle_update_company_settings,
}
use leave_management_system.Company.Audit.{
  IsSound, add-IsSound, rename-IsSound, drop-IsSound, settings-IsSound,
}
use leave_management_system.Company.Steps.{
  logged-Keeps, validated-Keeps, permitted-Keeps, write_settings-Keeps, settings-Keeps,
}

pub data Request : Type 0 where
  create : DesignationInput → Request
  update : ℕ → DesignationInput → Request
  delete : ℕ → Request
  settings : CompanyField → Upload → Request

-- Who asks, from the token, and for what.
pub record Call : Type 0 where
  pub user_id : Option ℕ
  pub user_role : Role
  pub request : Request

module _ (validator : DesignationInput → Option String) where
  -- The tables and the schedule after the handler has answered.
  unfoldable pub handle : Role → Option ℕ → Request → World Store → World Store
  handle r user (create input) w = (handle_create_designation validator r user input w).1
  handle r user (update id input) w = (handle_update_designation validator r user id input w).1
  handle r user (delete id) w = (handle_delete_designation r user id w).1
  handle r user (settings input logo) w = (handle_update_company_settings r user input logo w).1

  unfoldable pub handle_all : List Call → World Store → World Store
  handle_all [] w = w
  handle_all (c ∷ calls) w = handle_all calls (handle c.user_role c.user_id c.request w)

  handle-IsSound :
      (r : Role) (user : Option ℕ) (request : Request) (w : World Store)
      → IsSound w.db
      → IsSound (handle r user request w).db
  unfolding handle handle_create_designation handle_update_designation handle_delete_designation
      create_designation update_designation delete_designation exec
  handle-IsSound r user (create input) w h =
      permitted-Keeps IsSound _ r user _
        (λ emp_id.
          validated-Keeps IsSound (validator input) _
            (logged-Keeps IsSound _ (add_designation input) _ (add-IsSound input emp_id)))
        w h
  handle-IsSound r user (update id input) w h =
      permitted-Keeps IsSound _ r user _
        (λ emp_id. validated-Keeps IsSound (validator input) _ (
          logged-Keeps IsSound _ (λ s. (tt, rename_designation id input s)) _
            (rename-IsSound id input emp_id)))
        w h
  handle-IsSound r user (delete id) w h =
      permitted-Keeps IsSound _ r user _
        (λ emp_id.
          logged-Keeps IsSound _ (λ s. (tt, drop_designation id s)) _ (drop-IsSound id emp_id))
        w h
  handle-IsSound r user (settings input logo) w h =
      settings-Keeps IsSound input logo r user
        (λ emp_id.
          write_settings-Keeps IsSound input logo emp_id (settings-IsSound input logo emp_id))
        w h

  -- Whatever is asked, by whom, and whichever statements and commits fail: if at first ids are
  -- different and below the next one, employees hold designations that exist, the log accounts for
  -- the designations and no settings have 0 working days, all of this holds after any sequence of
  -- requests.
  pub company_requests-IsSound :
      (calls : List Call) (w : World Store) → IsSound w.db → IsSound (handle_all calls w).db
  unfolding handle_all
  company_requests-IsSound [] w h = h
  company_requests-IsSound (c ∷ calls) w h =
      company_requests-IsSound calls (handle c.user_role c.user_id c.request w)
        (handle-IsSound c.user_role c.user_id c.request w h)
