-- ===== src/Examples.antt =====
-- Concrete runs of the gateway's parts: each applies a theorem to inputs that it covers.
mod Data
mod Sorting
mod Commands
mod Bulks
mod Scans
mod Runs
mod Requests
mod Messages
mod Topics
mod Groups
mod Produces
