-- ===== src/HttpServer.antt =====
-- searchserver/HttpServer.cpp and HttpServer.hpp: the server, and what a worker does with one client.
pub mod Escapes
pub mod Float
pub mod Fusion
pub mod Routes
pub mod Tracking
pub mod Reading
pub mod Loops
pub mod Frames
pub mod Chunks
pub mod Connection
pub mod Rounds
pub mod Conversation
pub mod Consumed
pub mod Termination
pub mod Startup
pub mod Listener
pub mod Shutdown
pub mod Dispatched
pub mod Claims
pub mod Descriptors
pub mod Once
pub mod HomePage
pub mod Service
pub mod Serving
pub mod Interface
pub mod Mutations
pub mod Interleaved
