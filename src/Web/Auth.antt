-- ===== src/Web/Auth.antt =====
-- Accounts, secrets and tokens (src/web/auth.py). A text is a list of code points.
pub mod Users
pub mod Admin
pub mod Secrets
pub mod Credentials
pub mod Config
pub mod Migration
pub mod Passwords
pub mod Start
pub mod Restart
pub mod Accounts
pub mod Tokens
pub mod Access
pub mod Stored
pub mod Glossary
pub mod Events
pub mod Retention
pub mod Limits
pub mod Fakes
mod Tests
