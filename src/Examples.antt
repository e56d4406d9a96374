-- ===== src/Examples.antt =====
-- The theorems at concrete inputs, and runs of the definitions.
mod Sample
mod DurableJobs
mod Deliveries
mod Parts
mod Handlers
mod Schedules
mod Series
mod Runner
mod Listening
mod Reaping
mod Requesting
