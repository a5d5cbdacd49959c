-- ===== src/Tests.antt =====
-- Runs of the theorems at concrete inputs.
pub mod ListBuffer
pub mod Toys
mod TableServer
mod ClientTests
mod CodecTests
mod KeysTests
mod DbTests
mod CenterTests
mod IdleTests
mod RewardTests
mod ServerTests
mod SettingsTests
mod ToolTests
mod HexTests
mod SystemTests
mod SettledTests
mod StartTests
