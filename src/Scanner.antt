-- ===== src/Scanner.antt =====
-- wg-ping.go: the scanner.
pub mod Inc
pub mod Ip
pub mod Cidr
pub mod Url
pub mod Ping
pub mod Average
pub mod Pool
mod Tests
