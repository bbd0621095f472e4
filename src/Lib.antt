-- ===== src/Lib.antt =====
-- Verification of the Battleship server and of its client: the board, the match, the online players,
-- the challenges between them, the handler of gameplay messages, accounts with their passwords, the
-- database, connections, the server that routes messages between them, the client's end of the
-- connection, the screens on which ships are placed and the battle is fought, and the file of a session.
--
-- The parts and their files:
-- Protocol: the enumerations and structs of common/include/protocol.h, and getShipLength
--   (get_ship_length) of common/src/protocol.cpp. ShipType and Orientation are bytes, as on the
--   wire.
-- Board: the class Board (common/src/game_state.cpp). isValidPlacement, placeShip, removeShip,
--   clearBoard, processShot, allShipsSunk, getCell, setCell and randomPlacement are
--   is_valid_placement, place_ship, remove_ship, clear_board, process_shot, all_ships_sunk,
--   get_cell, set_cell and random_placement. Board/Squares has the data, Board/Fleet the
--   well-formedness of a board; Shots, Placement, Check, Victory, Conquest, Reports, Removal and
--   Random are about the operations; Cells, Marks and Drawing have the lemmas on the cells of a ship.
-- Match: MatchState (common/src/game_state.cpp): start_match, process_move, end_match,
--   switch_turn, is_turn_timed_out, get_turn_time_remaining. Match/Play is about moves,
--   Match/Turns about turns, Match/History about the recorded moves.
-- Messages: the payloads of common/include/messages/ that the server sends, and the events that
--   stand for what is sent; Base/Text has safeStrCopy (common/include/message_serialization.h).
-- Players: PlayerManager (server/src/player_manager.cpp). Challenges: ChallengeManager
--   (server/src/challenge_manager.cpp). Both keep an association list for their map.
-- Placements: validateShipPlacement, the stored text of a fleet and loadShips of
--   server/src/gameplay_handler.cpp; Placements/Stored is about what is read back. Gameplay: the handlers of that file, checkTurnTimeouts and
--   handlePlayerDisconnect; Gameplay/State has what they share, Gameplay/Endings is about how
--   matches end, Gameplay/Sessions about sessions and placements.
-- Passwords: PasswordHash (common/src/password_hash.cpp); Passwords/Compare is about the
--   comparison of hashes, Passwords/Verified about what is stored and accepted. Accounts:
--   AuthHandler (server/src/auth_handler.cpp); Accounts/Token is about session tokens,
--   Accounts/Login about registration, login and logout.
-- Store: DatabaseManager (server/src/database.cpp). Store/Tables has the rows, Store/Users,
--   Store/Sessions and Store/Matches the methods; Store/Integrity and Store/References are about
--   the consistency of the tables, Store/Lifetime about sessions, fleets and drawn matches,
--   Store/Passes about sessions as their callers see them, and Store/Handlers fills the database of
--   Accounts and of Gameplay with these methods.
-- Connection: ClientConnection (server/src/client_connection.cpp). sendMessage, receiveMessage,
--   sendData and receiveData are send_message, receive_message, send_data and receive_data;
--   Connection/Framing is about what arrives, Connection/Failures about what is left of a failure.
-- Routing: Server (server/src/server.cpp), PlayerHandler (server/src/player_handler.cpp) and
--   ChallengeHandler (server/src/challenge_handler.cpp). Routing/State has one state for the server
--   with all its handlers, and routeMessage (route_message), removeClient (remove_client) and the
--   others as functions on it; Routing/Steps has the steps that a server makes; Kept, Desks and
--   Invariant are about what every step keeps, Connections about the end of a connection.
-- Network: ClientNetwork (client/src/client_network.cpp): its state, its requests (sendMove is
--   send_move, validateSession is ask_validation, and so on) and the loop over the messages that
--   arrive (receive). Network/Login follows a login from the server to the next move, Network/Guards
--   is about when something is sent.
-- Planner: the placement of ships (client/src/ui_ship_placement.cpp).
-- Battle: UIManager during a game (client/src/ui_manager.cpp, client/src/ui_lobby.cpp and
--   client/src/ui_screens.cpp). Battle/State has the state and the timer, Fire the player's shots,
--   clicks, resignation and clock, Bot the computer opponent and the buttons of the menu, Server the
--   callbacks of match messages, Reveal what a sunk ship does to the opponent's board. Marking, Spent,
--   Wear, Arranging, Local, Shooting and Fair are about games without the server, Turns about whose turn
--   it is, Screens about how games with and without the server meet, Offline about the screens that
--   the buttons open, Scans and Sunken about the marks, and Acts and Agreement about a match on the
--   server with the screens of its two players.
-- Lobby: the list of players and the challenge dialog (client/src/ui_lobby.cpp and
--   showChallengeDialog of client/src/ui_manager.cpp). Lobby/Rows and Lobby/Roster are about the list
--   against the players of the server, Dialog about the challenge that an answer goes to.
-- SessionStorage: the session file (client/src/session_storage.cpp); Lines and RoundTrip are about
--   what is read back.
-- Base: names of the library passed on, maps, integers, lists and texts.
--
-- How they interact: a challenge that is accepted puts two players in a game (Challenges uses
-- Players); the ships of both are validated, stored as text and loaded on two boards (Gameplay
-- uses Placements and Board); moves go through the match to the opponent's board (Gameplay uses
-- Match, Match uses Board); the end of a match frees its players. A handler takes the state of
-- the server and returns it with the list of messages that are sent, in their order. The handlers
-- of accounts and of games run on the tables of Store (Store/Handlers); Routing gives each message of
-- a client (a Request of Network) to its handler, on one state that they share. The list of Lobby
-- takes in what Players broadcasts.
--
-- Bounds: hits of a ship is a byte and wraps at 256; challenge ids wrap at 2^32; time differences
-- and the byte counts of a connection are taken modulo 2^64. Other counters are unbounded numbers. Loops over cells and ships are
-- structural recursion; randomPlacement makes at most 1000 attempts for a ship, as in the source,
-- with the draws of rand() as a parameter. A read or write outside an array is `none`.
--
-- The scans of Reveal make at most ten steps, as many as the board has cells in a row; a printed
-- number of SessionStorage has at most ten digits, which 32 bits do not exceed. The computer opponent
-- makes at most 100 attempts, as in the source.
--
-- A send or a receipt recurses on what the socket does call by call; that so many calls suffice as
-- there are bytes is part of the theorem.
--
-- Outside of the model: SQLite itself (each method is translated to its effect on the rows, with the
-- constraints of the schema; a database that fails is the flag healthy), the methods of
-- DatabaseManager that nothing calls, the Elo formula in floating point (a parameter), the clock (an
-- argument), mutexes and threads (each message and each round of the timeout checker runs as one
-- step, in any order), the calls on sockets (their results are arguments), the layout of packed
-- structs (a parameter of Connection), SHA-256 and the random bytes of OpenSSL (parameters of
-- Passwords), the messages that the client never sends (PING and rematches, in Routing), and the
-- client's widgets, drawing, sound and animation.
mod Base
pub mod Protocol
pub mod Board
pub mod Match
pub mod Messages
pub mod Players
pub mod Challenges
pub mod Placements
pub mod Gameplay
pub mod Passwords
pub mod Accounts
pub mod Store
pub mod Network
pub mod Connection
pub mod Routing
pub mod Planner
pub mod Battle
pub mod SessionStorage
pub mod Lobby
