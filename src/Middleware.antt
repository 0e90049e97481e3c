-- ===== src/Middleware.antt =====
-- The middleware of the application (backend/src/alpha/main.py).
pub mod Body
pub mod Csrf
