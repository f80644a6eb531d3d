-- ===== src/Web/App.antt =====
-- The handlers of the HTTP application (src/web/app.py). A reply is a value or the status of an
-- `HTTPException`; what FastAPI does around a handler is not modelled.
pub mod Reply
pub mod Accounts
pub mod Requests
pub mod Keeps
pub mod Guards
pub mod Admins
pub mod LastAdmin
mod Tests
