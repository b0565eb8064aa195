-- ===== src/Database.antt =====
-- Errors and transactions: pkg/common/errors/errors.go and
-- internal/config/database/transaction.go.
-- A service call runs over the tables `S` and returns a value, an error or a panic. The database
-- may refuse any statement: `faults` says, statement by statement, with which message.
mod Defs
pub mod Laws
pub mod Outcomes
pub mod Endings
unfoldable pub use Defs.*
