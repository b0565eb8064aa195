-- ===== src/Equipment.antt =====
-- Equipment and its assignments: internal/repositories/equipment.go and internal/models/assest.go.
-- Assignments stand newest first, which is the order of `assigned_at DESC`. Quantities are not
-- negative, and purchase dates and time stamps, which nothing is decided by, are left out.
pub mod Defs
pub mod Rows
pub mod Conservation
unfoldable pub use Defs.*
