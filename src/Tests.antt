-- ===== src/Tests.antt =====
-- Runs of the definitions, and the theorems at concrete inputs.
mod World
mod Texts
mod Periods
mod Rounds
mod Chats
mod Services
mod Markets
mod Runs
mod Databases
mod Telegrams
mod Slacks
mod Clients
mod Callers
