-- ===== src/Policies.antt =====
-- Leave policies: internal/handler/leavePolicy.go, internal/service/leavePolicy.go and
-- internal/repositories/leavePolicy.go.
pub mod Defs
pub mod Keeping
pub mod Referred
