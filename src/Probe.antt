-- ===== src/Probe.antt =====
-- src/fanwatch/probe.py: the read-only acquisition of one snapshot from sysfs.
pub mod Reading
pub mod Status
pub mod Indices
pub mod Fans
pub mod Temperatures
pub mod Board
pub mod Collect
pub mod Collector
mod ProbeTests
