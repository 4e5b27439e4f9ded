-- ===== src/Tests.antt =====
-- Runs on concrete inputs, among them one for each statement that has conditions.
pub mod Data
pub mod Agent
pub mod Loop
pub mod Plane
pub mod Sets
pub mod Ticks
pub mod Restart
pub mod Templates
