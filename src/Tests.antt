-- ===== src/Tests.antt =====
-- The tests: witnesses at concrete inputs.
pub mod Channels
mod Ports
mod Network
mod Processes
mod Scripts
mod Files
mod Appends
mod Memories
mod Systems
mod Programs
mod Remotes
mod Packets
