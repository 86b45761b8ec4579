-- ===== src/Server.antt =====
-- server/src: how the models of the server drive a connection.
pub mod EventIo
pub mod CommandLine
pub mod Site
pub mod Blocking
pub mod Table
pub mod Reactor
pub mod Poll
pub mod Uring
pub mod Epoll
pub mod Workers
