-- ===== src/Socks5.antt =====
-- transport/socks5/socks5.go: addresses as bytes, and the packets and handshakes over them. A byte is a
-- number below 256.
pub mod Handshake
pub mod Addr
mod Tests
use go_warp_scanner.Common.Text.{Text}
use go_warp_scanner.Common.{
  ℕ, ◌+◌, ◌*◌, ◌/◌, ◌%◌, not, ◌&&◌, Option, none, some, List, [], ◌∷◌, ◌++◌, ltb, ◌==◌,
  if◌then◌else◌, length, take, drop,
}

abbrev pub Bytes : Type 0
Bytes = List ℕ

abbrev pub atyp_ipv4 : ℕ
atyp_ipv4 = 1

abbrev pub atyp_domain_name : ℕ
atyp_domain_name = 3

abbrev pub atyp_ipv6 : ℕ
atyp_ipv6 = 4

-- The two bytes of a port: `byte(port >> 8), byte(port)`.
abbrev pub port_bytes : ℕ → Bytes
port_bytes port = (port / 256) % 256 ∷ port % 256 ∷ []

-- The bytes that `SplitAddr` counts for a domain.
domain_len : Bytes → Option ℕ
domain_len [] = none
domain_len (n ∷ rest) = some (1 + 1 + n + 2)

-- `addrLen` of `SplitAddr`.
addr_len : Bytes → Option ℕ
unfolding domain_len
addr_len [] = none
addr_len (t ∷ rest) =
    if t == atyp_domain_name
    then domain_len rest
    else if t == atyp_ipv4
    then some (1 + 4 + 2)
    else if t == atyp_ipv6
    then some (1 + 16 + 2)
    else none

unfoldable pub split_addr : Bytes → Option Bytes
unfolding addr_len
split_addr b = elim (addr_len b) [
  | none ↦ none
  | some n ↦ if ltb (length b) n then none else some (take n b)
]

-- `netip.Addr` and `net.IP`: the bytes of an address and its family.
pub data Ip : Type 0 where
  ip4 : Bytes → Ip
  ip6 : Bytes → Ip

-- `AddrFromStdAddrPort`.
unfoldable pub addr_from_std_addr_port : Ip × ℕ → Bytes
addr_from_std_addr_port (ip4 b, port) = atyp_ipv4 ∷ b ++ port_bytes port
addr_from_std_addr_port (ip6 b, port) = atyp_ipv6 ∷ b ++ port_bytes port

-- The results of the method `UDPAddr`, which panics on an address that is cut off, in a slice with no
-- room behind its end.
pub data UdpAddr : Type 0 where
  no_udp : UdpAddr
  udp : Bytes → ℕ → UdpAddr
  udp_panic : UdpAddr

port_of : Bytes → Bytes → UdpAddr
port_of ip (p ∷ q ∷ rest) = udp ip (p * 256 + q)
port_of ip (p ∷ []) = udp_panic
port_of ip [] = udp_panic

udp_of : ℕ → Bytes → UdpAddr
unfolding port_of
udp_of n b = if ltb (length b) n then udp_panic else port_of (take n b) (drop n b)

unfoldable pub udp_addr : Bytes → UdpAddr
unfolding udp_of
udp_addr [] = no_udp
udp_addr (t ∷ b) =
    if t == atyp_ipv4 then udp_of 4 b else if t == atyp_ipv6 then udp_of 16 b else no_udp

-- The functions of the standard library that `ParseAddr` calls.
pub record AddrParsers : Type 0 where
  pub split_host_port : Text → Option (Text × Text)
  pub parse_ip : Text → Option Ip
  pub parse_port : Text → Option ℕ

-- The address in `ParseAddr` before its port.
host_bytes : AddrParsers → Text → Option Bytes
host_bytes ps host = elim (ps.parse_ip host) [
  | some ip ↦ elim ip [ ip4 b ↦ some (atyp_ipv4 ∷ b) | ip6 b ↦ some (atyp_ipv6 ∷ b) ]
  | none ↦
      if ltb 255 (length host) then none else some (atyp_domain_name ∷ length host % 256 ∷ host)
]

with_port : AddrParsers → Text × Text → Option Bytes
unfolding host_bytes
with_port ps (host, port) = elim (host_bytes ps host) [
  | none ↦ none
  | some b ↦ elim (ps.parse_port port) [ none ↦ none | some n ↦ some (b ++ port_bytes n) ]
]

unfoldable pub parse_addr : AddrParsers → Text → Option Bytes
unfolding with_port
parse_addr ps s = elim (ps.split_host_port s) [ none ↦ none | some parts ↦ with_port ps parts ]

-- The errors of `DecodeUDPPacket`.
pub data PacketError : Type 0 where
  insufficient_length : PacketError
  reserved_not_zero : PacketError
  fragmented : PacketError
  no_udp_header : PacketError

-- The results of `DecodeUDPPacket`.
pub record Decoded : Type 0 where
  pub addr : Option Bytes
  pub payload : Bytes
  pub err : Option PacketError

abbrev decode_error : PacketError → Decoded
decode_error e = record { addr = none; payload = []; err = some e }

decode_rest : Bytes → Option Bytes → Decoded
decode_rest rest none = record { addr = none; payload = rest; err = some no_udp_header }
decode_rest rest (some a) = record { addr = some a; payload = drop (length a) rest; err = none }

-- The fields of a packet of at least five bytes.
decode_fields : Bytes → Decoded
unfolding decode_rest
decode_fields (a ∷ b ∷ frag ∷ rest) =
    if not (a == 0 && b == 0)
    then decode_error reserved_not_zero
    else if not (frag == 0)
    then decode_error fragmented
    else decode_rest rest (split_addr rest)
decode_fields (a ∷ b ∷ []) = decode_error insufficient_length
decode_fields (a ∷ []) = decode_error insufficient_length
decode_fields [] = decode_error insufficient_length

unfoldable pub decode_udp_packet : Bytes → Decoded
unfolding decode_fields
decode_udp_packet packet =
    if ltb (length packet) 5 then decode_error insufficient_length else decode_fields packet

-- `EncodeUDPPacket`; `none` is its error.
unfoldable pub encode_udp_packet : Option Bytes → Bytes → Option Bytes
encode_udp_packet none payload = none
encode_udp_packet (some addr) payload = some (0 ∷ 0 ∷ 0 ∷ addr ++ payload)
