-- ===== src/Auth.antt =====
-- The feature backend/src/features/auth, part by part.
pub mod EmailAddress
pub mod Token
pub mod Filter
pub mod Availability
pub mod Repository
pub mod Warmer
pub mod Codes
pub mod Service
pub mod Oauth
