-- ===== src/Durable.antt =====
-- Durable jobs: src/pybus/durable.py, src/pybus/delivery.py and the Django store of
-- src/pybus/integrations/django_durable.
pub mod Types
pub mod Life
pub mod Queries
pub mod Claim
pub mod Publish
pub mod Admit
pub mod Envelope
pub mod Controller
pub mod Settle
pub mod Schedule
pub mod Series
pub mod Guards
pub mod Moves
pub mod Run
pub mod Runner
