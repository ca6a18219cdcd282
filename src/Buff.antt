-- ===== src/Buff.antt =====
-- internal/buff: the write buffer and the reader of messages.
pub mod Writer
pub mod Reader
