-- ===== src/Tests.antt =====
-- Runs of the model on concrete inputs, and each theorem at an input that meets its hypotheses.
mod MemoryFiles
mod Index
mod Requests
mod Files
mod Threads
mod Server
mod Network
mod Connections
mod Client
mod Main
mod Wire
mod Races
