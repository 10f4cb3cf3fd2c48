-- ===== src/Dashboard.antt =====
-- src/fanwatch/dashboard.py: the histories of the readings, the alerts that need them, the table and
-- the charts, what a frame writes to the screen, and the loop that reads the keys.
pub mod Histories
pub mod Alerts
pub mod View
pub mod Colors
pub mod FanRows
pub mod FanTable
pub mod FanCounts
pub mod TempRows
pub mod TempOrder
pub mod MachineRows
pub mod Table
pub mod Groups
pub mod Cores
pub mod Screen
pub mod Palette
pub mod Layout
pub mod Fit
pub mod Frame
pub mod Bounds
pub mod Loop
pub mod Reach
mod DashboardTests
mod FrameTests
