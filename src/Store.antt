-- ===== src/Store.antt =====
-- DatabaseManager (server/include/database.h, server/src/database.cpp).
-- A table is the list of its rows, in the order of insertion. An SQL statement of a method is
-- translated to an operation on the lists, with the constraints of initializeSchema: PRIMARY KEY
-- AUTOINCREMENT, UNIQUE, and FOREIGN KEY, which the constructor switches on. The time is an argument.
mod Tables
mod Users
mod Sessions
mod Matches
pub mod Queries
pub mod Integrity
pub mod References
pub mod Lifetime
pub mod Passes
pub mod Handlers
pub mod Tests
unfoldable pub use Tables.*
unfoldable pub use Users.*
unfoldable pub use Sessions.*
unfoldable pub use Matches.*
