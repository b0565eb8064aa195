-- ===== src/Employees.antt =====
-- Employees: internal/handler/employee.go with the statements of internal/repositories/repo.go and
-- employee.go.
pub mod Store
pub mod Requests
pub mod Profile
pub mod People
pub mod Spared
pub mod Ranks
pub mod Hiring
pub mod Details
pub mod Superiors
pub mod Rights
pub mod Ledgers
pub mod Allocation
pub mod Returns
