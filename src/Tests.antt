-- ===== src/Tests.antt =====
-- Runs at concrete inputs.
mod Samples
mod Router
mod Scripts
mod Dnsmasq
mod Ports
mod Transactions
mod Texts
mod Document
mod Start
mod Log
mod Whole
mod Events
mod Manager
mod Gate
mod Handlers
mod Resolution
mod Parser
mod Names
mod Loop
