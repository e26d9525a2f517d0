-- ===== src/Tests.antt =====
-- The theorems at concrete data.
mod Data
mod Starts
mod Servers
mod Clusters
mod Sessions
mod Parts
mod Traces
mod Forges
mod Waits
