-- ===== src/Load.antt =====
-- src/fanwatch/load.py: the processes of `CpuLoad`, the life of `OpenClLoad` with the ownership of
-- what it creates, and the loop of its thread.
pub mod State
pub mod OpenCl
pub mod Ownership
pub mod Setup
pub mod Release
pub mod Cpu
pub mod Workers
pub mod Thread
mod LoadTests
