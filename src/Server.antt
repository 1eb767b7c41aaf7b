-- ===== src/Server.antt =====
-- Homeworks/Asynchronous_Web_Server: a web server on epoll.
pub mod Epoll
pub mod Types
pub mod System
pub mod Monad
pub mod Sockets
pub mod Connection
pub mod Files
pub mod Reply
pub mod Request
pub mod Main
pub mod Safety
pub mod Delivery
pub mod Tests
