-- ===== src/Auth.antt =====
-- src/auth: the one-time codes that are sent to a phone, and the sessions.
pub mod Otp
pub mod Issue
pub mod OneTime
pub mod Limited
pub mod Sessions
pub mod Rotated
