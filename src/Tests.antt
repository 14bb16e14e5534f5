-- ===== src/Tests.antt =====
-- The toy environment and the program run in it.
mod Toy
mod Decoder
mod Setup
mod Runs
mod Parts
mod Identity
mod Texts
mod Refusals
mod Threads
mod Created
mod Transfer
mod Clients
mod Service
mod Disk
mod Command
mod Ticketed
mod Configs
mod Connection
