-- ===== src/Tests.antt =====
-- Runs of the theorems at concrete inputs.
mod Parser
mod Keys
mod Containers
mod Channels
mod Commands
mod Files
mod Data
mod Server
mod Cluster
mod Scripts
mod Client
mod Start
mod Store
