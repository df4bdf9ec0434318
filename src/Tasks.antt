-- ===== src/Tasks.antt =====
-- modules/task and modules/task-occurrence-exception: the tasks of a calendar and their changes.
pub mod Types
pub mod Database
pub mod Exceptions
pub mod Store
pub mod World
pub mod Read
pub mod Daily
pub mod Settings
pub mod Overlap
pub mod Rule
pub mod Completion
pub mod Update
pub mod Override
pub mod Split
pub mod Laws
pub mod Invariant
