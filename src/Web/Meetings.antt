-- ===== src/Web/Meetings.antt =====
-- The handlers of meetings in src/web/app.py, over the store.
pub mod Handlers
pub mod Others
pub mod Isolation
mod Tests
