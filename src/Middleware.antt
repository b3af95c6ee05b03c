-- ===== src/Middleware.antt =====
-- internal/middleware
pub mod Responses
pub mod Jwt
