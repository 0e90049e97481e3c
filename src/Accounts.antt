-- ===== src/Accounts.antt =====
-- Accounts (backend/src/alpha/routes_auth.py): sessions, registration and its codes, login, logout and
-- the change of passwords.
pub mod Sessions
pub mod Codes
pub mod Register
pub mod Login
pub mod Password
