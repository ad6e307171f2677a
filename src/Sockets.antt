-- ===== src/Sockets.antt =====
-- modules/networking/low-latency-sockets: exact stream transfers, whole datagrams, socket options.
pub mod Types
pub mod Kernel
pub mod Loop
pub mod Stream
mod Tests
pub mod Datagram
pub mod Options
