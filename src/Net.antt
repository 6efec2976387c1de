-- ===== src/Net.antt =====
-- network_02listInterfaceNames.c, network_03getIpAddr.c, network_03setIpAddr.c, network_04changeNetmask.c
-- and network_05ifdown.c: the network interfaces.
pub mod Listing
pub mod Lines
pub mod Settings
mod Tests
