-- ===== src/Header.antt =====
-- Header.go: the UDP and TCP headers, their bytes and their parsers.
pub mod Udp
pub mod Tcp
