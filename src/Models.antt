-- ===== src/Models.antt =====
-- The data of the program: roles (pkg/accessrole), leaves and their approval logs (internal/models).
pub mod Role
pub mod Leave
