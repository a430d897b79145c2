-- ===== src/Defcheck.antt =====
-- The analyzer defcheck (defcheck/): a declaration is reported when a configured pattern forbids its
-- name for its kind, and the code chose the name.
pub mod Kinds
pub mod Objects
pub mod Rules
pub mod Check
pub mod Normalize
pub mod Compile
pub mod Report
mod Samples
