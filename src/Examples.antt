-- ===== src/Examples.antt =====
-- Concrete inputs, and each result at one of them.
mod Data
mod Config
mod Store
mod Core
mod Supervisor
mod Files
mod Acme
mod Node
mod Cli
mod Setup
