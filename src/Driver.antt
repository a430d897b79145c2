-- ===== src/Driver.antt =====
-- The findings of the command and of go vet (internal/driver/): where each is placed, which are dropped,
-- as golangci-lint drops them, and which go vet reports.
pub mod Findings
pub mod Exclusions
pub mod Filter
pub mod Vet
pub mod Values
pub mod Settings
pub mod Read
pub mod Rules
pub mod Once
pub mod Reported
pub mod Selected
pub mod Printed
pub mod Run
pub mod Placed
pub mod Kept
mod Samples
mod RunSamples
