-- ===== src/Tests.antt =====
-- The theorems at concrete inputs.
mod Data
mod Values
mod Translator
mod Gateway
mod Memory
mod Cluster
mod Routes
mod Reconcilers
mod Listeners
