-- ===== src/Paircheck/Flow.antt =====
-- The search of paircheck/flow.go for a path on which an obligation is left open, with the parts of
-- paircheck/success.go that it runs on each instruction, branch and return.
pub mod Types
pub mod Success
pub mod Events
pub mod Step
pub mod Explore
pub mod Paths
pub mod Simulation
pub mod Points
pub mod Cover
pub mod Complete
pub mod Range
pub mod Universe
pub mod Terminates
pub mod Plain
pub mod Sound
pub mod Correct
pub mod Follow
