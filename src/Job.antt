-- ===== src/Job.antt =====
-- src/deepseek_mcp/job_manager.py: background jobs with steering messages, one execution slot, and
-- the workspace lease. The methods hold the manager's lock, so each is one step; the threads
-- between them are the relation of Job/World.
pub mod Record
pub mod Mailbox
pub mod Manager
pub mod Methods
pub mod Worker
pub mod Dict
pub mod Lifecycle
pub mod World
pub mod Slot
pub mod Starting
pub mod Steps
pub mod Ending
pub mod Owned
pub mod Entering
pub mod Exclusive
