-- ===== src/Socks5/Addr.antt =====
-- transport/socks5/socks5.go: the addresses that are whole, and the functions that make and take them.
use go_warp_scanner.Common.Text.{Text}
use go_warp_scanner.Socks5.{
  Bytes, atyp_ipv4, atyp_domain_name, atyp_ipv6, port_bytes, domain_len, addr_len, split_addr, ip4,
  ip6, addr_from_std_addr_port, udp, udp_of, port_of, udp_addr, AddrParsers, host_bytes, with_port,
  parse_addr, decode_udp_packet, decode_fields, decode_rest, encode_udp_packet,
}
use go_warp_scanner.Common.{
  ℕ, ◌+◌, ◌*◌, ◌/◌, ◌%◌, ◌≤◌, ◌<◌, ◌≡◌, refl, sym, ap, ◌∙◌, subst, inl, inr, false, none, some, [],
  ◌∷◌, ◌++◌, arith, ltb, Bool-cases, Option-cases, length, take, drop, length-append,
}

-- An address of RFC 1928: its type, the bytes of the host, and two bytes of the port.
pub data IsAddr (a : Bytes) : Type 0 where
  domain_addr :
      (host : Bytes) (p q : ℕ)
      → length host ≤ 255
      → a ≡ atyp_domain_name ∷ length host ∷ host ++ p ∷ q ∷ []
      → IsAddr a
  ipv4_addr : (ip : Bytes) (p q : ℕ) → length ip ≡ 4 → a ≡ atyp_ipv4 ∷ ip ++ p ∷ q ∷ [] → IsAddr a
  ipv6_addr : (ip : Bytes) (p q : ℕ) → length ip ≡ 16 → a ≡ atyp_ipv6 ∷ ip ++ p ∷ q ∷ [] → IsAddr a

-- The slices of a list behind another.
pub take-append : (xs ys : Bytes) → take (length xs) (xs ++ ys) ≡ xs
take-append [] ys = refl
take-append (x ∷ xs) ys = ap (λ t. x ∷ t) (take-append xs ys)

pub drop-append : (xs ys : Bytes) → drop (length xs) (xs ++ ys) ≡ ys
drop-append [] ys = refl
drop-append (x ∷ xs) ys = drop-append xs ys

addr_len-append : (a rest : Bytes) → IsAddr a → addr_len (a ++ rest) ≡ some (length a)
unfolding addr_len domain_len
addr_len-append a rest (domain_addr host p q le e) =
    let n = length-append host (p ∷ q ∷ []) in rw e (ap some (omega arith))
addr_len-append a rest (ipv4_addr ip p q le e) =
    let n = length-append ip (p ∷ q ∷ []) in rw e (ap some (omega arith))
addr_len-append a rest (ipv6_addr ip p q le e) =
    let n = length-append ip (p ∷ q ∷ []) in rw e (ap some (omega arith))

-- A whole address at the front is split off, whatever follows it.
pub split_addr-append : (a rest : Bytes) → IsAddr a → split_addr (a ++ rest) ≡ some a
unfolding split_addr
split_addr-append a rest ok =
    let n = length-append a rest in
    let enough : ltb (length (a ++ rest)) (length a) ≡ false = ground arith in
    rw (addr_len-append a rest ok, split_addr) (rw enough (ap some (take-append a rest)))

pub length-IsAddr : (a : Bytes) → IsAddr a → 4 ≤ length a
length-IsAddr a (domain_addr host p q le e) =
    let n = length-append host (p ∷ q ∷ []) in rw e (omega arith)
length-IsAddr a (ipv4_addr ip p q le e) =
    let n = length-append ip (p ∷ q ∷ []) in rw e (omega arith)
length-IsAddr a (ipv6_addr ip p q le e) =
    let n = length-append ip (p ∷ q ∷ []) in rw e (omega arith)

-- A packet that `EncodeUDPPacket` makes of a whole address and a payload is decoded to the two, without an error.
pub decode_udp_packet-encode_udp_packet :
    (a payload : Bytes)
    → IsAddr a
    → (packet : Bytes) × (encode_udp_packet (some a) payload ≡ some packet)
      × (decode_udp_packet packet ≡ record { addr = some a; payload = payload; err = none })
unfolding decode_udp_packet decode_fields decode_rest encode_udp_packet
decode_udp_packet-encode_udp_packet a payload ok =
    let packet : Bytes = 0 ∷ 0 ∷ 0 ∷ a ++ payload in
    let n = length-append a payload in
    let m = length-IsAddr a ok in
    let enough : ltb (length packet) 5 ≡ false = ground arith in
    (
      packet,
      refl,
      rw enough (
          rw (split_addr-append a payload ok, decode_rest)
            (ap (λ b. record { addr = some a; payload = b; err = none }) (drop-append a payload))),
    )

-- What the library functions of `ParseAddr` give: the bytes of the addresses of each family.
pub record AreParsers (ps : AddrParsers) : Type 0 where
  pub ip4_length : (s : Text) (b : Bytes) → ps.parse_ip s ≡ some (ip4 b) → length b ≡ 4
  pub ip6_length : (s : Text) (b : Bytes) → ps.parse_ip s ≡ some (ip6 b) → length b ≡ 16

host_bytes-IsAddr :
    (ps : AddrParsers)
    → AreParsers ps
    → (host : Text) (b : Bytes) (p q : ℕ) → host_bytes ps host ≡ some b
    → IsAddr (b ++ p ∷ q ∷ [])
unfolding host_bytes
host_bytes-IsAddr ps laws host b p q e = elim (Option-cases (ps.parse_ip host)) [
  | inl f ↦ elim (Bool-cases (ltb 255 (length host))) [
    | inl t ↦ let e' : none ≡ some b = rw t at (rw (f, host_bytes) at e) in absurd (cc)
    | inr t ↦
        let e' : some (atyp_domain_name ∷ length host % 256 ∷ host) ≡ some b =
          rw t at (rw (f, host_bytes) at e) in
        let k : atyp_domain_name ∷ length host % 256 ∷ host ≡ b = cc in
        let small : length host ≤ 255 = ground arith in
        let whole : length host % 256 ≡ length host = omega arith in
        domain_addr host p q small (
          ap (λ x. x ++ p ∷ q ∷ []) (sym k)
          ∙ ap (λ n. atyp_domain_name ∷ n ∷ host ++ p ∷ q ∷ []) whole)
  ]
  | inr (ip4 d, f) ↦
      let e' : some (atyp_ipv4 ∷ d) ≡ some b = rw (f, host_bytes) at e in
      let k : atyp_ipv4 ∷ d ≡ b = cc in
      ipv4_addr d p q (laws.ip4_length host d f) (ap (λ x. x ++ p ∷ q ∷ []) (sym k))
  | inr (ip6 d, f) ↦
      let e' : some (atyp_ipv6 ∷ d) ≡ some b = rw (f, host_bytes) at e in
      let k : atyp_ipv6 ∷ d ≡ b = cc in
      ipv6_addr d p q (laws.ip6_length host d f) (ap (λ x. x ++ p ∷ q ∷ []) (sym k))
]

-- An address that `ParseAddr` returns is whole, if the addresses of the library have four or sixteen bytes.
pub parse_addr-IsAddr :
    (ps : AddrParsers)
    → AreParsers ps
    → (s : Text) (a : Bytes) → parse_addr ps s ≡ some a
    → IsAddr a
unfolding parse_addr with_port
parse_addr-IsAddr ps laws s a e = elim (Option-cases (ps.split_host_port s)) [
  | inl f ↦ let e' : none ≡ some a = rw (f, parse_addr) at e in absurd (cc)
  | inr ((host, port), f) ↦ elim (Option-cases (host_bytes ps host)) [
    | inl g ↦ let e' : none ≡ some a = rw (g, with_port) at (rw (f, parse_addr) at e) in absurd (cc)
    | inr (b, g) ↦ elim (Option-cases (ps.parse_port port)) [
      | inl h ↦
          let e' : none ≡ some a =
            rw (h, with_port) at (rw (g, with_port) at (rw (f, parse_addr) at e)) in
          absurd (cc)
      | inr (n, h) ↦
          let e' : some (b ++ port_bytes n) ≡ some a =
            rw (h, with_port) at (rw (g, with_port) at (rw (f, parse_addr) at e)) in
          let k : b ++ port_bytes n ≡ a = cc in
          subst IsAddr k (host_bytes-IsAddr ps laws host b ((n / 256) % 256) (n % 256) g)
    ]
  ]
]

udp_of-append :
    (b : Bytes) (port : ℕ)
    → udp_of (length b) (b ++ port_bytes port) ≡ udp b ((port / 256) % 256 * 256 + port % 256)
unfolding udp_of port_of
udp_of-append b port =
    let n = length-append b (port_bytes port) in
    let t : ltb (length (b ++ port_bytes port)) (length b) ≡ false = ground arith in
    rw t (rw (take-append b (port_bytes port), drop-append b (port_bytes port)) refl)

-- `UDPAddr` gives back the address and the port of which `AddrFromStdAddrPort` has made the bytes.
pub udp_addr-addr_from_std_addr_port :
    (b : Bytes) (port : ℕ)
    → port < 65536
    → (length b ≡ 4 → udp_addr (addr_from_std_addr_port (ip4 b, port)) ≡ udp b port)
      × (length b ≡ 16 → udp_addr (addr_from_std_addr_port (ip6 b, port)) ≡ udp b port)
unfolding udp_addr addr_from_std_addr_port
udp_addr-addr_from_std_addr_port b port small =
    (λ e. back 4 b port e small, λ e. back 16 b port e small)
  where
    whole : (port : ℕ) → port < 65536 → (port / 256) % 256 * 256 + port % 256 ≡ port
    whole port lt = omega arith

    back :
        (n : ℕ) (b : Bytes) (port : ℕ)
        → length b ≡ n
        → port < 65536
        → udp_of n (b ++ port_bytes port) ≡ udp b port
    back n b port e lt =
        subst (λ k. udp_of k (b ++ port_bytes port) ≡ udp b port) e
          (udp_of-append b port ∙ ap (udp b) (whole port lt))
