-- ===== src/Export.antt =====
-- The export of the application's state, chain/export.go. The SDK's keepers that it calls are
-- parameters, gathered in Export/Keepers.antt.
pub mod Reset
pub mod Keepers
pub mod ZeroHeight
pub mod Frame
pub mod Maps
pub mod Restart
pub mod Zeroed
pub mod AppState
pub mod Unfinished
pub mod Prepared
mod Tests
