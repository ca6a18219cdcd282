-- ===== src/Examples.antt =====
-- The theorems at concrete inputs, and runs of the modelled code.
mod Buffers
mod Caches
mod Encodings
mod Descriptors
mod Flows
mod Executes
mod Parses
mod Pools
mod Queries
mod Transactions
