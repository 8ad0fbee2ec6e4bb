-- ===== src/Engine.antt =====
-- src/engine: the coordinator that orders the operations of one store, and its worker pool.
pub mod Operation
pub mod Event
pub mod Workers
pub mod Queues
pub mod Scheduler
pub mod Tickets
pub mod Conservation
pub mod Frame
pub mod Coordinator
pub mod Answers
pub mod Accounting
pub mod Stable
pub mod Flights
pub mod Safety
pub mod Pending
pub mod Closing
pub mod Stopping
pub mod System
pub mod Settled
pub mod Front
pub mod Opening
pub mod Owned
pub mod Tests
