-- ===== src/Tests.antt =====
-- Concrete runs of the modelled code.
mod Calls
mod Plugin
mod Audio
mod Frames
mod Gateway
mod Volc
mod Store
mod Route
mod Node
mod Page
mod Peers
mod Loopback
mod Identity
