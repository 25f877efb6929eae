-- ===== src/Server.antt =====
-- key-value-server/my_server.c: a server of pairs of a number and a string, for one client at a time; my_client.c: its client.
mod Tests
pub mod Tokens
pub mod Store
pub mod Loop
pub mod Valid
pub mod Lookup
pub mod Changes
pub mod Commands
pub mod Client
pub mod Talk
pub mod Sockets
pub mod Dialogue
pub mod Accepted
pub mod Answered
pub mod Connection
pub mod Map
pub mod Requests
