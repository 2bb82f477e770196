-- ===== src/Reqf.antt =====
-- The package reqf: cookies (reqf/cookie.go).
pub mod CookieDomain
pub mod Cookies
