-- ===== src/Accounts.antt =====
-- Leave entitlements, their adjustment and their monthly accrual.
pub mod Store
pub mod Entitlement
pub mod Adjustment
pub mod Fetched
pub mod Adjusted
pub mod Accrual
pub mod Books
pub mod Credits
pub mod Accruing
