-- ===== src/Admin.antt =====
-- The routes of the administrator (backend/src/alpha/routes_admin.py).
pub mod EventUpdate
pub mod UserStatus
pub mod Challenges
pub mod Submissions
pub mod Lists
pub mod Guarded
