-- ===== src/Network.antt =====
-- exec/network: the network experiments.
pub mod Tc
pub mod Drop
pub mod Dns
pub mod Occupy
