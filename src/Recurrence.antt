-- ===== src/Recurrence.antt =====
-- modules/recurrence-rule: the on-read expansion of a recurrence rule into occurrences.
pub mod Types
pub mod Luxon
pub mod Uniform
pub mod Selectors
pub mod Candidates
pub mod Expand
