-- ===== src/Echo.antt =====
-- app_04tcp_server.c, app_04tcp_client.c, app_04udp_server.c and app_04udp_client.c: a request is sent
-- back with `,OK`.
pub mod Server
pub mod Client
pub mod Replies
pub mod Loops
pub mod Session
pub mod Tests
