-- ===== src/Process.antt =====
-- Approve, reject and withdraw: internal/service/leave/leaveprocess. A pointer to a stage is its
-- index in the approval log, given with the stage that it points to.
mod Defs
pub mod Stages
pub mod Lifecycle
pub mod Balances
pub mod Agreement
unfoldable pub use Defs.*
