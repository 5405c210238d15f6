-- ===== src/Web.antt =====
-- internal/web: the dashboard.
pub mod LoginLimit
