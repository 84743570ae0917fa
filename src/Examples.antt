-- ===== src/Examples.antt =====
-- Concrete inputs of the theorems on the program's parts.
mod Jobs
mod Agents
mod Values
mod Journals
mod Paths
mod Files
mod Calls
mod Edits
mod Settings
mod Leases
