-- ===== src/Alert.antt =====
-- internal/alert: the deliveries of alerts and their retries.
pub mod Deliveries
pub mod Dispatch
pub mod Lookup
pub mod Due
pub mod Retry
pub mod Pass
pub mod Closing
mod Tests
