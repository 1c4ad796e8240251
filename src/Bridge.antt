-- ===== src/Bridge.antt =====
-- src/gui/gui_bridge.cpp and include/zoal_atc/gui/gui_bridge.hpp: the GUI proxy. `State` has its data
-- and its map of pending requests, `Settle` the private `…_locked` operations, `Handlers` the public
-- ones. The lock is held for the whole of each operation (`submit` takes it three times; see there),
-- so an operation is one step.
pub mod State
pub mod Settle
pub mod Handlers
pub mod Owed
pub mod Bounds
pub mod Pending
pub mod Tracking
pub mod Steps
pub mod Reach
pub mod Connection
pub mod Runs
pub mod Delivery
mod Tests
