-- ===== src/Lib.antt =====
-- Verification of the leave management backend: how leaves are applied for, approved, rejected,
-- withdrawn and cancelled, what that does to approval logs and leave balances, and the parts around
-- it (entitlements, accrual, employees, payroll, equipment, pages).
--
-- The parts and the files that model them:
-- - Prelude: numbers, lists, options, Boolean tests and the integers of the balances.
-- - Models: roles (pkg/accessrole), states, statuses, leaves, leave types and approval stages
--   (internal/models, pkg/constant).
-- - Database: errors (pkg/common/errors), statements, and ExecuteTransaction
--   (internal/config/database/transaction.go).
-- - Tables: the tables of the leave subsystem and the SQL statements over them
--   (internal/repositories/leave.go, leaveFlow.go, leaveLogFlow.go, leaveBalance.go).
-- - Process: the processors of internal/service/leave/leaveprocess. Process/Stages, Lifecycle,
--   Agreement and Balances are about logs, statuses, stored rows and balances.
-- - Leave: Leave/Action is ActionLeave, ActionValidator and CancleLeave, Leave/Service is Create
--   and UpdateLeave, of internal/service/leave/leaveflow/leaveFlow.go. Leave/Validation and
--   Leave/Reason are leaveValidation.go beside it, Leave/Log is internal/service/leaveLogFlow.go,
--   Leave/Days is internal/service/common.go, and Leave/Days/Week sets its working days against the
--   days of the week.
-- - ApprovalFlow: AllowToCreateLeaveApprovelFlow of internal/service/leaveApprovalFlow.go.
-- - Accounts: recalculation and allocation of balances (internal/repositories/leaveBalance.go),
--   AdjustLeaveBalance (internal/handler/leaveBalance.go) and RunAccrual
--   (internal/service/leaveAccrual.go). The repositories keep closing = opening - used + adjusted
--   and leave accrued out of it, while schema_folder/schema.sql and the service's comment count it
--   in; the books here are those of the code.
-- - Employees: the handlers that write in internal/handler/employee.go, with their statements in
--   internal/repositories/repo.go. Store holds the tables, Requests and Profile the handlers,
--   Superiors the requests of routes/router.go one after the other; People, Spared, Ranks, Hiring
--   and Details are about the rows of SUPERADMINs, Rights, Ledgers, Allocation and Returns about
--   rights, balances, new employees and equipment given back. The accounts and the equipment are
--   parts of the tables: a call on them runs on its part.
-- - Payroll: RunPayroll and FinalizePayroll (internal/handler/payroll.go,
--   internal/repositories/payroll.go) and CalculateAbsentDaysForMonth of internal/service/common.go.
--   Store and Absence hold the tables and the absences, Run the handlers; Months and Bounds are
--   about absences, Payslips, Agreement and HalfDays about what finalizing does.
-- - Policies: creating, changing and deleting a leave type (internal/service/leavePolicy.go,
--   internal/handler/leavePolicy.go, internal/repositories/leavePolicy.go). Defs holds them, Keeping
--   the requests one after the other, Referred the refusal of a type that is in use.
-- - Company: designations, settings and the audit log (internal/handler/designation.go and
--   settings.go). Defs holds the handlers, Rows the lemmas on rows, Audit what the log accounts
--   for, Steps the parts of a request, Trail the requests of routes/router.go one after the other.
-- - Equipment: internal/repositories/equipment.go.
-- - Pagination: pkg/common/pagination/pagination.go.
-- - Tests: the properties at concrete inputs.
--
-- A stateful function is an action: from a world, which is the tables and a schedule of the
-- statements that the database refuses, to a result (a value, an error or a panic) and a world. An
-- absent entry of the schedule is a statement that succeeds. Beginning, committing and rolling back
-- a transaction take an entry each. SQL queries are functions on lists of rows; rows stand newest
-- first where the source orders by time.
--
-- Identifiers are numbers. A text that is only compared is a data type with one constructor for
-- each constant and `other` for the rest. Dates are day numbers; what the calendar says of them
-- (the year, the month, today) is a parameter, as are the Unicode classes of a leave's reason. Days
-- of leave are counted in half days, the smallest amount that the timings give. Loops are
-- structural recursion on their list or count, so that there is no fuel.
--
-- Salaries are float64: their operations are a parameter, and nothing is assumed of them. Hashing and
-- making passwords, the domain of company addresses, and the first and last day of a month are
-- parameters too. A run's status is the text without space and case. Where a query has no order, rows
-- are taken from the front.
--
-- Not modelled: HTTP parsing and answers, listings and reports, notifications, cron timers, payslip
-- documents, tokens and hashing of passwords. The concurrency of requests is not modelled; the order
-- of statements in one request is. A negative entitlement for interns, which the code stores, is left
-- out.
pub mod Prelude
pub mod Models
pub mod Company
pub mod Database
pub mod Tables
pub mod Process
pub mod Leave
pub mod ApprovalFlow
pub mod Equipment
pub mod Accounts
pub mod Employees
pub mod Payroll
pub mod Policies
pub mod Pagination
pub mod Tests
