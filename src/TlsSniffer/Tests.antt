-- ===== src/TlsSniffer/Tests.antt =====
-- A message with the name of a server at concrete bytes.
use go_warp_scanner.TlsSniffer.{Bytes, server_name, sniff_tls}
use go_warp_scanner.TlsSniffer.Names.{be16, name_list, extensions_with, hello, sniff_tls-hello}
use go_warp_scanner.Common.{ℕ, ◌≡◌, refl, List, [], ◌∷◌, ◌++◌, arith, length, replicate}

-- `a.b`, behind an extension of the type 23.
abbrev name : Bytes
name = 97 ∷ 46 ∷ 98 ∷ []

abbrev others : List (ℕ × Bytes)
others = (23, []) ∷ []

abbrev head : Bytes
head = replicate 38 1

abbrev names : List (ℕ × Bytes)
names = (1, 120 ∷ []) ∷ []

-- An extension of the type 10 stands behind the names.
abbrev behind : Bytes
behind = 0 ∷ 10 ∷ 0 ∷ 0 ∷ []

abbrev message : Bytes
message =
    hello head (7 ∷ []) (19 ∷ 1 ∷ []) (0 ∷ [])
      (extensions_with others (name_list names name []) behind)

sniff_tls-hello_example :
    sniff_tls (22 ∷ 3 ∷ 1 ∷ be16 (length message) ++ (message ++ 5 ∷ [])) ≡ server_name name
sniff_tls-hello_example =
    sniff_tls-hello 1 head (7 ∷ []) (19 ∷ 1 ∷ []) (0 ∷ []) (5 ∷ []) others names name [] behind refl
      (omega arith) refl (refl, tt) (refl, tt) refl
