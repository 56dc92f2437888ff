-- ===== src/Auth.antt =====
-- Signing in, from server/server.py: the pass token of the login, the limits on failures and
-- connections, and the rejects that an administrator queues. Times are natural numbers of any unit.
pub mod Token
pub mod TokenTrip
pub mod Limits
pub mod Lockout
pub mod Admission
pub mod Rejects
pub mod Accounts
pub mod Login
pub mod Entrance
mod Tests
mod Runs
