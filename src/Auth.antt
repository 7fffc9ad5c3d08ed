-- ===== src/Auth.antt =====
-- internal/auth and internal/crypto/bcrypt.go: API tokens and the HTTP middleware that checks them.
-- bcrypt, uuid, base64, the random source and strings.TrimSpace are parameters (`Crypto`); what is
-- random enters as an argument (`Entropy`), `none` where the source reports an error.
pub mod Token
pub mod Manager
pub mod Middleware
pub mod Format
pub mod Verification
pub mod Gate
pub mod Revocation
pub mod Lifecycle
pub mod Tests
