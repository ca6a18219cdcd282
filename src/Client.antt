-- ===== src/Client.antt =====
-- internal/client: errors, borrowed connections, transactions and their retries.
pub mod Errors
pub mod Retry
pub mod Borrow
pub mod Env
pub mod Reconnect
pub mod Tx
pub mod Transactable
pub mod Pool
pub mod Protocol
