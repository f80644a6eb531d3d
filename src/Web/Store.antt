-- ===== src/Web/Store.antt =====
-- The SQLite store of meetings (src/web/store.py): its values, tables and methods, and in the
-- modules below them what the methods keep.
pub mod Json
pub mod Etag
pub mod Tables
pub mod Meetings
pub mod Writes
pub mod Locking
pub mod Valid
pub mod Keeps
pub mod Trace
pub mod Rows
pub mod Backups
pub mod Original
pub mod Revert
pub mod Regenerate
pub mod Undo
pub mod Removal
mod Tests
