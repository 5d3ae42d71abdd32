-- ===== src/Auth.antt =====
-- The authentication of the S3 surface: internal/auth/auth.go and internal/auth/presign.go.
pub mod Request
pub mod Permission
pub mod Canonical
pub mod Signing
pub mod Escape
pub mod Presigned
pub mod Access
mod Tests
