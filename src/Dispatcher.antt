-- ===== src/Dispatcher.antt =====
-- Src/core/dispatcher: polling of tags and the queues of writes, for each endpoint.
pub mod State
pub mod PollTag
pub mod Groups
pub mod Writes
pub mod Poll
pub mod PollTimes
pub mod PollLaws
pub mod PollTagLaws
pub mod GroupLaws
pub mod WriteLaws
pub mod FlushRounds
pub mod FlushLaws
pub mod FlushLosses
pub mod EndpointLaws
mod Tests
