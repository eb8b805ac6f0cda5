-- ===== src/Tests.antt =====
-- Runs at concrete inputs.
mod Breakers
mod Limits
mod Addresses
mod Outsides
mod Settings
mod Providers
mod Requests
mod Registries
mod Connections
mod Webhooks
mod Fleets
mod Engines
mod Managements
