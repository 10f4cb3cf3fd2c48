-- ===== src/Stress.antt =====
-- src/fanwatch/stress.py: what the stress test reads, and when it stops. The children hold the
-- report, the run, and the proofs.
pub mod Sampling
pub mod Guard
pub mod Words
pub mod Summary
pub mod Phases
pub mod Verdicts
pub mod Totality
pub mod Safety
pub mod Exec
pub mod Looping
pub mod Report
pub mod Running
pub mod Parsing
pub mod Validity
pub mod Control
pub mod Rounds
pub mod Phased
pub mod Quiet
pub mod Ends
pub mod Progress
mod SafetyTests
mod CommandTests
