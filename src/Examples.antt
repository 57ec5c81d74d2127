-- ===== src/Examples.antt =====
-- The theorems at concrete inputs.
mod Kernel
mod Pools
mod Echoes
mod Sessions
mod Threads
mod Startup
mod Launch
mod Arrivals
mod Servers
mod Dispatch
mod Timers
mod Buffers
mod Connections
mod Lifecycles
