-- ===== src/Messages.antt =====
-- backend/app/services/messages.py: sending to a channel or to a user with an idempotency key,
-- the binding of attachments, edits, deletions and the history of a conversation.
pub mod Content
pub mod Media
pub mod Batch
pub mod Send
pub mod Deliver
pub mod Revise
pub mod History
pub mod Binding
pub mod Visible
pub mod Claims
pub mod Waits
pub mod Quiet
pub mod Authors
pub mod Fits
