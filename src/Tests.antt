-- ===== src/Tests.antt =====
-- Runs of the model, and the theorems at concrete data.
mod Samples
mod Naming
mod Payloads
mod Cycles
mod Cluster
mod Encoding
mod Locking
mod Pods
mod Whole
mod Sharing
mod Storing
mod Writing
mod Serials
mod Requests
mod Startup
mod Answers
mod Launching
mod Process
