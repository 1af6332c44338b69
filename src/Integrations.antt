-- ===== src/Integrations.antt =====
-- Provider integration (src/agent/integrations/): the status vocabularies, the decisions on inbound
-- callbacks, on manual redrive and on retries, and the batches of the outbox and the inbox worker.
pub mod Models
pub mod Commands
pub mod Callbacks
pub mod Redrive
pub mod Retry
pub mod InboxWorker
pub mod OutboxWorker
mod Tests
mod DispatchTests
