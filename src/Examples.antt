-- ===== src/Examples.antt =====
-- Runs of the model on a small database.
mod Sample
mod Membership
mod Paging
mod Sends
mod Constraints
mod Checks
mod Auth
mod Limits
mod Sockets
mod Accounts
mod Routes
mod Contention
