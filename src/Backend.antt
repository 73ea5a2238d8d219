-- ===== src/Backend.antt =====
-- backend/src: the pure parts of the services.
pub mod Settlement
