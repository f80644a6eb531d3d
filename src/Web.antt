-- ===== src/Web.antt =====
-- The web server (src/web).
pub mod Store
pub mod Notices
pub mod Auth
pub mod Jobs
pub mod Contract
pub mod Meetings
pub mod App
pub mod GpuStatus
pub mod Requirements
