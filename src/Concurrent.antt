-- ===== src/Concurrent.antt =====
-- The server with its handlers interleaved at every access to the shared state.
pub mod Api
pub mod Hook
pub mod Alone
pub mod Safety
pub mod Pool
pub mod Steady
pub mod Interleaved
pub mod Schedule
pub mod Race
pub mod Stale
pub mod Late
pub mod Once
pub mod Beside
pub mod Refused
pub mod Sessions
pub mod Granted
