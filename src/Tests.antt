-- ===== src/Tests.antt =====
-- Concrete runs of the model, and the theorems applied to them.
pub mod Sample
pub mod Scene
mod Auth
mod Hooks
mod Exchanges
mod Grants
mod Registration
mod Requests
mod Concurrent
mod Races
mod Stale
mod Once
mod Start
mod Http
mod Login
