-- ===== src/Card.antt =====
-- sd_append.c and sd_mount_umount.c: a card that is mounted, a file on it that grows.
pub mod Mount
pub mod Append
mod Tests
