-- ===== src/Tests.antt =====
-- The theorems at concrete inputs: a kernel that accepts every descriptor and counts the calls, an
-- identity hash, and handlers that answer with success.
mod Devices
mod Numbers
mod Tables
mod Machines
mod FlagWords
mod SystemCalls
mod Sockets
mod Books
mod Clients
mod Publishers
mod Types
mod Servers
mod Acceptors
mod Connections
