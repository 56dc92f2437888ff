-- ===== src/Lobby.antt =====
-- Class TCP20922LobbyCore of server/lobby_core.py.
pub mod State
pub mod Filters
pub mod Occupancy
pub mod Entry
pub mod Replies
pub mod Listing
pub mod Blank
pub mod Invariant
pub mod Leaving
pub mod Detached
pub mod Entered
pub mod Attached
pub mod Ensured
pub mod Prepared
pub mod Reach
mod Tests
