-- ===== src/Network.antt =====
-- ClientNetwork (client/include/client_network.h, client/src/client_network.cpp): the client's end of
-- the connection. Whether the socket connects and sends what it is given is an argument. What a
-- callback is told is a notice; a callback is taken to be set. The socket options, the address and
-- the receiver thread, which feeds `receive` one message after the other, are left out.
mod State
mod Requests
mod Receive
pub mod Login
pub mod Guards
mod Tests
unfoldable pub use State.*
unfoldable pub use Requests.*
unfoldable pub use Receive.*
