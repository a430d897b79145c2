-- ===== src/Paircheck.antt =====
-- The analyzer paircheck (paircheck/): a call that opens an obligation on a value is reported when a
-- path returns from the function before a call that discharges it.
pub mod Proven
pub mod Ssa
pub mod Flow
pub mod Name
pub mod Slot
pub mod Protocol
pub mod Config
pub mod Types
pub mod Correspondence
pub mod Candidates
pub mod Bind
pub mod Dispatch
pub mod Implementation
pub mod Validate
pub mod Summary
pub mod Identity
pub mod Closure
mod Samples
mod ConfigSamples
mod BindSamples
mod ClosureSamples
mod ValidateSamples
mod SummarySamples
