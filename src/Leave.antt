-- ===== src/Leave.antt =====
-- The life of a leave request: internal/service/leave/leaveflow, internal/service/common.go and
-- internal/service/leaveLogFlow.go.
pub mod Log
pub mod Days
pub mod Reason
pub mod Validation
pub mod Action
pub mod Service
