-- ===== src/Tests.antt =====
-- The properties at concrete inputs, and the inputs.
mod Given
mod Queues
mod Commons
mod Configs
mod Parses
mod Indexes
mod Systems
mod Devices
mod Preps
mod Prepared
mod Processes
mod Discovers
