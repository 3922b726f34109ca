-- ===== src/Broker.antt =====
-- src/broker_impl/broker.h, src/broker_impl/broker.cc and src/deferred_mpl/: the broker.
pub mod Ids
pub mod Registry
pub mod Numbered
pub mod Json
pub mod Fetch
pub mod Reply
pub mod Publish
pub mod Listen
pub mod Bind
pub mod Facade
pub mod Process
pub mod Teardown
mod Tests
