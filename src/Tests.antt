-- ===== src/Tests.antt =====
-- Concrete runs of the components, one module for each.
mod Queues
mod Stacks
mod Timers
mod Buffers
mod Lists
mod Pools
mod Sections
mod Tasks
mod Cores
mod Machines
mod Signals
mod Channels
mod Responses
