-- ===== src/Examples.antt =====
-- The theorems at concrete inputs, and small runs of the models.
mod Streaming
mod Queues
mod Rooms
mod Assemblies
mod Inputs
mod Showing
mod Greetings
mod Peers
mod Capturing
mod Sessions
mod Listening
mod Screens
mod Windows
mod Crowds
mod Locks
mod Castings
