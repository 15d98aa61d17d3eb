-- ===== src/Scenarios.antt =====
-- Concrete nets and runs on which the theorems of the other files are applied, and tests that run
-- the code on them.
pub mod Data
mod Places
mod Nets
mod Attempts
mod Topologies
mod Loops
mod Dialogs
mod Children
mod Disk
mod Stores
mod Quarantine
mod Gateway
mod Persons
mod Groups
