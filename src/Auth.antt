-- ===== src/Auth.antt =====
-- internal/auth: the pure half of the OpenID Connect relying party. Checked has its errors, Session the
-- signed tokens and the household session of auth.go, Jwt the tokens of the issuer of jwt.go,
-- Discovery the provider document of discovery.go.
pub mod Checked
pub mod Session
pub mod Jwt
pub mod Discovery
mod Tests
