-- ===== src/Tests.antt =====
-- Runs of the code and applications of the theorems at concrete states.
mod BlockAllocator
mod States
mod Allocations
mod Offsets
mod Pools
mod Names
mod Locks
mod Resizing
mod Vectors
mod Lists
mod Tables
mod Managers
