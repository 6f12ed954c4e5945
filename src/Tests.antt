-- ===== src/Tests.antt =====
-- Concrete inputs at which the theorems hold.
mod Messages
mod Frames
mod Lines
mod Running
mod Sockets
mod Queues
mod Toy
mod Conversations
mod Loops
mod Peers
mod Keys
mod Windows
mod Starts
