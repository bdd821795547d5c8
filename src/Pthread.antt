-- ===== src/Pthread.antt =====
-- The part of POSIX threads that the programs call, and what holds of every program that uses it.
pub mod Model
pub mod Roles
pub mod Ownership
pub mod Absence
pub mod Races
pub mod OneLock
pub mod Outline
pub mod Stuck
pub mod Accounts
