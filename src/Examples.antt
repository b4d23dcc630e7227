-- ===== src/Examples.antt =====
-- Concrete runs: a toy platform, the two tenants of the demo and a file of contracts, and what the
-- theorems say about them.
mod Codec
mod Toy
mod ControlPlanes
mod Sound
mod Tokens
mod Minting
mod Canonical
mod Histories
mod Postgreses
mod Scripts
mod Stores
mod Engines
mod Apis
mod Answers
