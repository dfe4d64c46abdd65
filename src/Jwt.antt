-- ===== src/Jwt.antt =====
-- src/http_api.cpp: base64url, and the namespace JwtHelper.
pub mod Base64
pub mod Token
pub mod Examples
