-- ===== src/Tests.antt =====
-- Concrete inputs at which the properties hold.
mod Inputs
mod Leaves
mod Others
mod Accounting
mod Payroll
mod Staff
mod Office
mod Rules
