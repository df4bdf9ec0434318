-- ===== src/Session.antt =====
-- modules/assistant/session and modules/assistant/reply: what guards a user's turns and drafts.
pub mod DraftThrottle
pub mod Redis
pub mod UserLock
pub mod MessageBuffer
pub mod Debounce
pub mod Resume
pub mod Keyboard
pub mod Ingress
pub mod PendingQuestions
