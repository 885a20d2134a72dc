-- ===== src/Tests.antt =====
-- The theorems at concrete inputs.
pub mod Sample
mod Large
mod Instructions
mod Markets
mod Flows
mod Actions
mod Views
mod Runner
mod Packing
mod Running
mod Figures
mod Money
