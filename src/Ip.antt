-- ===== src/Ip.antt =====
-- pkg/util/ip/ipnet.go: IPv4 addresses as `uint32` and networks as an address with a prefix length.
-- `Addr` and `Net` hold the operations, the other children the laws.
pub mod Addr
pub mod Net
pub mod Octets
pub mod Masks
pub mod Ranges
pub mod Blocks
mod Tests
pub mod Convert
pub mod Forms
pub mod Iface
pub mod Choice
pub mod Json
pub mod Quotes
