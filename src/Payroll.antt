-- ===== src/Payroll.antt =====
-- Payroll: internal/handler/payroll.go, internal/repositories/payroll.go, and
-- `CalculateAbsentDaysForMonth` of internal/service/common.go.
pub mod Store
pub mod Absence
pub mod Run
pub mod Months
pub mod Payslips
pub mod Agreement
pub mod Bounds
pub mod HalfDays
