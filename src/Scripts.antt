-- ===== src/Scripts.antt =====
-- The shell scripts of src/openwrt, which the commands of src/openwrt/openwrt.c run, and the one of
-- src/dnsmasq.
pub mod Shell
pub mod Getopts
pub mod Uci
pub mod Firewall
pub mod RoundTrip
pub mod Database
pub mod Machine
pub mod Installed
pub mod Grown
pub mod Planned
pub mod Transaction
pub mod Entries
pub mod Indices
pub mod Removal
pub mod Removed
pub mod Quiet
pub mod Atomic
pub mod Whole
pub mod Refused
pub mod Ports
pub mod Blocked
pub mod Dnsmasq
pub mod Install
