-- ===== src/Tests.antt =====
-- Runs of the model on concrete inputs, most of them on a small event.
mod Fixtures
mod Sessions
mod Transactions
mod Queues
mod Jobs
pub mod Kafka
mod Startup
mod Workers
mod Requests
pub mod Catalog
pub mod Accounts
pub mod Hubs
