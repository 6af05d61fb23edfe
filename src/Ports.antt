-- ===== src/Ports.antt =====
-- The port arithmetic of exec/network/tc/network_tc.go.
pub mod Ranges
pub mod Parse
pub mod Masks
