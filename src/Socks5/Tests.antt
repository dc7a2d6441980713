-- ===== src/Socks5/Tests.antt =====
-- The theorems on addresses, packets and handshakes at concrete values.
use go_warp_scanner.Common.Text.{Text, codes, text_eq}
use go_warp_scanner.Socks5.{
  Bytes, split_addr, decode_udp_packet, encode_udp_packet, Ip, ip4, ip6, AddrParsers, parse_addr,
}
use go_warp_scanner.Socks5.Addr.{
  IsAddr, domain_addr, ipv4_addr, decode_udp_packet-encode_udp_packet, AreParsers,
}
use go_warp_scanner.Socks5.Handshake.{Conn, done, return, server_handshake, client_handshake}
use go_warp_scanner.Socks5.Handshake.Reader.{Splits, read_addr-split_addr}
use go_warp_scanner.Socks5.Handshake.Server.{conn, client_bytes, server_bytes}
use go_warp_scanner.Socks5.Handshake.Session.{handshake_accepted}
use go_warp_scanner.Common.{
  ℕ, ◌≡◌, refl, sym, ap, inl, inr, Bool, ◌&&◌, Option, none, some, [], ◌∷◌, ◌++◌, arith,
  if◌then◌else◌, Bool-cases, length,
}

-- `1.2.3.4:443` and `a.b:80`.
abbrev first_addr : Bytes
first_addr = 1 ∷ 1 ∷ 2 ∷ 3 ∷ 4 ∷ 1 ∷ 187 ∷ []

abbrev second_addr : Bytes
second_addr = 3 ∷ 3 ∷ 97 ∷ 46 ∷ 98 ∷ 0 ∷ 80 ∷ []

first_addr-IsAddr : IsAddr first_addr
first_addr-IsAddr = ipv4_addr (1 ∷ 2 ∷ 3 ∷ 4 ∷ []) 1 187 refl refl

second_addr-IsAddr : IsAddr second_addr
second_addr-IsAddr = domain_addr (97 ∷ 46 ∷ 98 ∷ []) 0 80 (omega arith) refl

decode_udp_packet-encode_udp_packet_example :
    (packet : Bytes) × (encode_udp_packet (some second_addr) (7 ∷ 8 ∷ []) ≡ some packet)
    × (decode_udp_packet packet
        ≡ record { addr = some second_addr; payload = 7 ∷ 8 ∷ []; err = none })
decode_udp_packet-encode_udp_packet_example =
    decode_udp_packet-encode_udp_packet second_addr (7 ∷ 8 ∷ []) second_addr-IsAddr

abbrev a_stream : Conn
a_stream = conn (second_addr ++ 9 ∷ []) 1

read_addr-split_addr_example : Splits return a_stream (split_addr a_stream.input)
read_addr-split_addr_example = read_addr-split_addr return a_stream

abbrev verify : Text → Text → Bool
verify name password = text_eq name (codes "me") && text_eq password (codes "pw")

abbrev me : Text × Text
me = (codes "me", codes "pw")

handshake_accepted_example :
    ((left : ℕ) × (server_handshake
          (some verify)
          (some first_addr)
          (conn (client_bytes (some me) second_addr 1 ++ 5 ∷ []) 3)
        ≡ (
          record { input = 5 ∷ []; output = server_bytes (some me) first_addr; writes = left },
          done (second_addr, 1),
        )))
    × ((left : ℕ) × (client_handshake
            (some me)
            second_addr
            1
            (conn (server_bytes (some me) first_addr ++ 6 ∷ []) 3)
          ≡ (
            record { input = 6 ∷ []; output = client_bytes (some me) second_addr 1; writes = left },
            done first_addr,
          )))
handshake_accepted_example =
    handshake_accepted (some verify) (some me) second_addr first_addr (5 ∷ []) (6 ∷ []) 1 3
      second_addr-IsAddr first_addr-IsAddr
      ((omega arith, omega arith), (omega arith, omega arith), refl) refl (omega arith)

-- Parsers that know one host and port.
abbrev one_ip : Text → Option Ip
one_ip s = if text_eq s (codes "1.2.3.4") then some (ip4 (1 ∷ 2 ∷ 3 ∷ 4 ∷ [])) else none

abbrev parsers : AddrParsers
parsers = record {
  split_host_port =
      λ s. if text_eq s (codes "1.2.3.4:443") then some (codes "1.2.3.4", codes "443") else none;
  parse_ip = one_ip;
  parse_port = λ s. if text_eq s (codes "443") then some 443 else none;
}

parsers-AreParsers : AreParsers parsers
parsers-AreParsers = record { ip4_length = four; ip6_length = none_v6 }
  where
    four : (s : Text) (b : Bytes) → one_ip s ≡ some (ip4 b) → length b ≡ 4
    four s b e = elim (Bool-cases (text_eq s (codes "1.2.3.4"))) [
      | inl t ↦
          let e' : some (ip4 (1 ∷ 2 ∷ 3 ∷ 4 ∷ [])) ≡ some (ip4 b) = rw t at e in
          let k : 1 ∷ 2 ∷ 3 ∷ 4 ∷ [] ≡ b = cc in ap length (sym k)
      | inr t ↦ let e' : none ≡ some (ip4 b) = rw t at e in absurd (cc)
    ]

    none_v6 : (s : Text) (b : Bytes) → one_ip s ≡ some (ip6 b) → length b ≡ 16
    none_v6 s b e = elim (Bool-cases (text_eq s (codes "1.2.3.4"))) [
      | inl t ↦ let e' : some (ip4 (1 ∷ 2 ∷ 3 ∷ 4 ∷ [])) ≡ some (ip6 b) = rw t at e in absurd (cc)
      | inr t ↦ let e' : none ≡ some (ip6 b) = rw t at e in absurd (cc)
    ]

first_parsed : parse_addr parsers (codes "1.2.3.4:443") ≡ some first_addr
unfolding parse_addr
first_parsed = refl
