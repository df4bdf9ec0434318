-- ===== src/Orchestration.antt =====
-- modules/assistant/orchestration: the bounded loop that drives the model and its tools.
pub mod Types
pub mod Terminal
pub mod Calls
pub mod ToolLoop
