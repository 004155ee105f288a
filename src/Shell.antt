-- ===== src/Shell.antt =====
-- kernel/core/shell.c: four sessions on one screen, their command lines, and the programs that run
-- in them.
pub mod Text
pub mod Decimal
pub mod Lines
pub mod Wrapping
pub mod State
pub mod Words
pub mod Files
pub mod Status
pub mod Curl
pub mod Apps
pub mod Run
pub mod Keys
pub mod Starting
pub mod Valid
pub mod Events
pub mod Commands
pub mod Running
pub mod Reachable
pub mod History
pub mod Storing
pub mod Drawing
pub mod Tasks
pub mod Redrawing
mod Tests
