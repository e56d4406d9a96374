-- ===== src/Stores.antt =====
-- The in-memory helpers: src/pybus/inbox.py, src/pybus/outbox.py, src/pybus/batching.py and
-- src/pybus/transports/memory.py.
pub mod Inbox
pub mod Outbox
pub mod Batching
pub mod Memory
