-- ===== src/Network/Tc.antt =====
-- exec/network/tc: delay, loss, duplicate, corrupt and reorder by the queues of `tc`.
pub mod Filters
pub mod Queue
pub mod Peers
pub mod Start
pub mod Actions
pub mod Total
pub mod Safety
pub mod Hang
pub mod Packets
