-- ===== src/Tests.antt =====
-- Runs of the definitions on concrete inputs, and the theorems applied to such inputs.
mod Engine
mod Fixtures
mod Http
mod Store
mod Kafka
mod Redis
mod Telemetry
mod Elastic
mod App
mod Main
mod Bootstrap
mod Routing
mod Capture
mod Consumers
mod Lost
mod Listing
mod Created
mod Index
mod Searched
mod Abstract
