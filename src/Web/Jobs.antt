-- ===== src/Web/Jobs.antt =====
-- The registry of AI jobs of src/web/app.py: `_jobs`, `_job_owner`, `_job_cancels`, `_job_finished_at`,
-- `_job_meta` and `_inflight`, under the lock of the jobs.
pub mod Registry
pub mod Worker
pub mod Slots
pub mod Cancel
pub mod Ends
pub mod Purge
pub mod Views
mod Tests
