-- ===== src/Routing.antt =====
-- The server as a whole (server/src/server.cpp), with the handlers of player lists and of challenges
-- (server/src/player_handler.cpp, server/src/challenge_handler.cpp): the connections, the routing of
-- a message to its handler, the end of a connection and the timeout checker. Each runs as one step,
-- and a connection is known by its descriptor. A message that no handler takes changes nothing.
mod State
mod Kept
mod Desks
pub mod Steps
pub mod Invariant
pub mod Connections
mod Tests
unfoldable pub use State.*
