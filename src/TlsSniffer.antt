-- ===== src/TlsSniffer.antt =====
-- component/sniffer/tls_sniffer.go: the server name in the first message of a TLS client.
pub mod Names
mod Tests
use go_warp_scanner.Common.{
  ℕ, zero, suc, ◌+◌, ◌*◌, ◌%◌, Bool, false, not, ◌||◌, Option, none, some, List, [], ◌∷◌, ltb, ◌==◌,
  if◌then◌else◌, length, get_or, take, drop,
}

abbrev pub Bytes : Type 0
Bytes = List ℕ

pub data SniffError : Type 0 where
  no_clue not_tls not_client_hello : SniffError

pub data Sniffed : Type 0 where
  server_name : Bytes → Sniffed
  sniff_error : SniffError → Sniffed

-- `int(b[0])<<8 | int(b[1])` at the front of bytes, of which two are there.
abbrev pub uint16_at : Bytes → ℕ
uint16_at b = get_or b 0 0 * 256 + get_or b 1 0

abbrev ends_in_dot : Bytes → Bool
ends_in_dot [] = false
ends_in_dot (c ∷ []) = c == 46
ends_in_dot (c ∷ d ∷ s) = ends_in_dot (d ∷ s)

-- The loop over the names of the extension, on fuel for the bytes left; `none` is its end.
unfoldable pub names_loop : ℕ → Bytes → Option Sniffed
names_loop zero d = none
names_loop (suc fuel) d =
    let name_len = uint16_at (drop 1 d) in
    let rest = drop 3 d in
    let later = names_loop fuel (drop name_len rest) in
    if length d == 0
    then none
    else if ltb (length d) 3
    then some (sniff_error not_client_hello)
    else if ltb (length rest) name_len
    then some (sniff_error not_client_hello)
    else if get_or d 0 0 == 0
    then (if ends_in_dot (take name_len rest)
        then some (sniff_error not_client_hello)
        else some (server_name (take name_len rest)))
    else later

-- The extension of server names.
unfoldable pub read_names : Bytes → Option Sniffed
unfolding names_loop
read_names d =
    if ltb (length d) 2
    then some (sniff_error not_client_hello)
    else if length (drop 2 d) == uint16_at d
    then names_loop (length d) (drop 2 d)
    else some (sniff_error not_client_hello)

-- The result of the extension of server names, or what follows it.
unfoldable pub or_later : Option Sniffed → Sniffed → Sniffed
or_later none later = later
or_later (some r) later = r

-- The loop over the extensions, on fuel for the bytes left.
unfoldable pub extensions_loop : ℕ → Bytes → Sniffed
unfolding read_names or_later
extensions_loop zero msg = sniff_error not_tls
extensions_loop (suc fuel) msg =
    let len = uint16_at (drop 2 msg) in
    let body = drop 4 msg in
    let later = extensions_loop fuel (drop len body) in
    if length msg == 0
    then sniff_error not_tls
    else if ltb (length msg) 4
    then sniff_error not_client_hello
    else if ltb (length body) len
    then sniff_error not_client_hello
    else if uint16_at msg == 0
    then or_later (read_names (take len body)) later
    else later

-- The extensions, behind the compression methods.
unfoldable pub read_extensions : Bytes → Sniffed
unfolding extensions_loop
read_extensions msg =
    if ltb (length msg) 2
    then sniff_error not_client_hello
    else if uint16_at msg == length (drop 2 msg)
    then extensions_loop (length msg) (drop 2 msg)
    else sniff_error not_client_hello

unfoldable pub read_compression : Bytes → Sniffed
unfolding read_extensions
read_compression msg =
    let n = get_or msg 0 0 in
    if ltb (length msg) 1
    then sniff_error no_clue
    else if ltb (length msg) (1 + n)
    then sniff_error no_clue
    else read_extensions (drop (1 + n) msg)

unfoldable pub read_ciphers : Bytes → Sniffed
unfolding read_compression
read_ciphers msg =
    let n = uint16_at msg in
    if ltb (length msg) 2
    then sniff_error no_clue
    else if n % 2 == 1 || ltb (length msg) (2 + n)
    then sniff_error not_client_hello
    else read_compression (drop (2 + n) msg)

-- `ReadClientHello`.
unfoldable pub read_client_hello : Bytes → Sniffed
unfolding read_ciphers
read_client_hello msg =
    let n = get_or msg 38 0 in
    if ltb (length msg) 42
    then sniff_error no_clue
    else if ltb 32 n || ltb (length msg) (39 + n)
    then sniff_error no_clue
    else read_ciphers (drop (39 + n) msg)

-- `SniffTLS`.
unfoldable pub sniff_tls : Bytes → Sniffed
unfolding read_client_hello
sniff_tls b =
    let n = uint16_at (drop 3 b) in
    if ltb (length b) 5
    then sniff_error no_clue
    else if not (get_or b 0 0 == 22)
    then sniff_error not_tls
    else if not (get_or b 1 0 == 3)
    then sniff_error not_tls
    else if ltb (length b) (5 + n)
    then sniff_error no_clue
    else read_client_hello (take n (drop 5 b))
