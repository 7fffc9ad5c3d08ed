-- ===== src/Bus/Steps.antt =====
-- Each operation of the bus keeps the invariant, and none panics.
mod Timers
mod Subscriptions
mod Removal
mod Fan
pub use Timers.*
pub use Subscriptions.*
pub use Removal.*
pub use Fan.*
