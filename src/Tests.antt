-- ===== src/Tests.antt =====
-- Runs of the code on concrete inputs, and the theorems at them.
mod Numbers
mod Caches
mod Requests
mod Files
mod Served
mod Handlers
mod Threads
mod Router
mod Cmd
mod Metrics
