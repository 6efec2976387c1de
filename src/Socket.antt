-- ===== src/Socket.antt =====
-- socket_tcp_client.c, socket_tcp_server.c, socket_udp_client.c, socket_udp_server.c and the pair
-- socket_tcp_nonblk_client.c, socket_tcp_nonblk_server.c.
pub mod Loops
pub mod Texts
pub mod Nonblocking
mod Tests
