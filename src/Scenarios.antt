-- ===== src/Scenarios.antt =====
-- Runs of the theorems on a small cluster.
pub mod World
mod Machines
mod Nodes
mod Errors
mod Pods
mod Configs
mod Webhooks
mod Migrations
mod Endpoints
pub mod Settings
mod Servers
mod Resources
mod Virtual
mod Droplets
mod Amazon
