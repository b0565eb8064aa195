-- ===== src/Models/Role.antt =====
-- Roles: pkg/accessrole/constant.go and role.go, and the approver roles of
-- internal/models/leaveApprovalFlow.go, which are the same texts.
use leave_management_system.Prelude.{
  ℕ, ◌+◌, ◌||◌, ◌&&◌, not, Bool, List, [], ◌∷◌, Option, none, some, String, ◌==◌, if◌then◌else◌,
  any,
}

-- A role is a text; `other` stands for every text that is none of the six constants.
pub data Role : Type 0 where
  super_admin admin employee manager hr intern : Role
  other : ℕ → Role

-- Different texts have different codes.
abbrev pub role_code : Role → ℕ
role_code super_admin = 0
role_code admin = 1
role_code employee = 2
role_code manager = 3
role_code hr = 4
role_code intern = 5
role_code (other n) = 6 + n

-- `==` on role texts.
abbrev pub role_eq : Role → Role → Bool
role_eq a b = role_code a == role_code b

-- The guards return the message as the error.
unfoldable pub admin_super_admin_hr : Role → String → Option String
admin_super_admin_hr role message =
    if not (role_eq role super_admin) && not (role_eq role admin) && not (role_eq role hr)
    then some message
    else none

unfoldable pub admin_super_admin : Role → String → Option String
admin_super_admin role message =
    if not (role_eq role super_admin) && not (role_eq role admin) then some message else none

unfoldable pub super_admin_guard : Role → String → Option String
super_admin_guard role message = if not (role_eq role super_admin) then some message else none

unfoldable pub is_employee_like : Role → Bool
is_employee_like role = role_eq role employee || role_eq role intern

abbrev pub admin_access_roles : List Role
admin_access_roles = super_admin ∷ admin ∷ hr ∷ []

abbrev pub employee_access_roles : List Role
employee_access_roles = employee ∷ intern ∷ []

abbrev pub super_admin_only : List Role
super_admin_only = super_admin ∷ []

-- What the request's context holds under "role": nothing, a text, or a value of another type.
pub data ContextRole : Type 0 where
  missing not_text : ContextRole
  text : Role → ContextRole

-- The middleware passes the request on, or answers with a status.
pub data Verdict : Type 0 where
  next : Verdict
  abort : ℕ → Verdict

unfoldable pub role_middleware : List Role → ContextRole → Verdict
role_middleware allowed_roles missing = abort 401
role_middleware allowed_roles not_text = abort 401
role_middleware allowed_roles (text role) =
    if any (λ r. role_eq role r) allowed_roles then next else abort 403
