-- ===== src/Company.antt =====
-- The designations, the company's settings and the audit log: internal/handler/designation.go and
-- settings.go with the statements of internal/repositories/degisnation.go, settings.go and logs.go.
pub mod Defs
pub mod Rows
pub mod Audit
pub mod Steps
pub mod Trail
