-- ===== src/Battle.antt =====
-- The battle screen of the client (UIManager, client/src/ui_manager.cpp, and its callbacks in
-- client/src/ui_lobby.cpp and client/src/ui_screens.cpp): what a click, a tick of a timer or a message
-- of the server does to the boards, the turn and the statistics. Widgets, colours, sounds and animations
-- are left out. A modal dialog runs the main loop, so its answer is an event of its own.
mod State
mod Fire
mod Bot
pub mod Marking
pub mod Spent
pub mod Wear
pub mod Arranging
pub mod Local
pub mod Shooting
pub mod Fair
pub mod Turns
pub mod Screens
pub mod Offline
pub mod Scans
pub mod Sunken
pub mod Acts
pub mod Agreement
mod Tests
mod Server
mod Reveal
unfoldable pub use State.*
unfoldable pub use Fire.*
unfoldable pub use Bot.*
unfoldable pub use Reveal.*
unfoldable pub use Server.*
