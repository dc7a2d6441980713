-- ===== src/TlsSniffer/Names.antt =====
-- component/sniffer/tls_sniffer.go: the name that is found in a message that carries one.
use go_warp_scanner.TlsSniffer.{
  Bytes, not_client_hello, sniff_error, server_name, uint16_at, ends_in_dot, names_loop, read_names,
  or_later, extensions_loop, read_extensions, read_compression, read_ciphers, read_client_hello,
  sniff_tls,
}
use go_warp_scanner.Common.{
  ℕ, zero, suc, ◌+◌, ◌/◌, ◌%◌, ◌≤◌, ◌<◌, ◌≡◌, refl, sym, ap, ◌∙◌, true, false, ◌||◌, some, List, [],
  ◌∷◌, ◌++◌, arith, ltb, ◌==◌, if◌then◌else◌, length, get_or, take, drop, length-append,
}

-- The two bytes of a number.
abbrev pub be16 : ℕ → Bytes
be16 n = n / 256 ∷ n % 256 ∷ []

-- An extension of a type with its bytes, and the one of a server name.
abbrev pub extension : ℕ → Bytes → Bytes
extension t body = be16 t ++ (be16 (length body) ++ body)

-- An entry of the list of names, of a type.
abbrev pub name_entry : ℕ → Bytes → Bytes
name_entry t name = t ∷ be16 (length name) ++ name

-- A list with names of other types, then the name of a host, and any bytes behind it.
abbrev pub name_list : List (ℕ × Bytes) → Bytes → Bytes → Bytes
name_list [] name more = name_entry 0 name ++ more
name_list ((t, other) ∷ others) name more = name_entry t other ++ name_list others name more

-- Extensions, then the one that has the list of names, and any bytes behind it.
abbrev pub extensions_with : List (ℕ × Bytes) → Bytes → Bytes → Bytes
extensions_with [] names behind = extension 0 (be16 (length names) ++ names) ++ behind
extensions_with ((t, body) ∷ others) names behind =
    extension t body ++ extensions_with others names behind

-- The extensions before the names, or the names before the one of a host, are of other types.
abbrev pub AreOthers : List (ℕ × Bytes) → Type 0
AreOthers [] = Unit
AreOthers ((t, body) ∷ more) = ((t == 0) ≡ false) × AreOthers more

take-front : (a b : Bytes) → take (length a) (a ++ b) ≡ a
take-front [] b = refl
take-front (x ∷ a) b = ap (λ t. x ∷ t) (take-front a b)

take_all : (a : Bytes) → take (length a) a ≡ a
take_all [] = refl
take_all (x ∷ a) = ap (λ t. x ∷ t) (take_all a)

drop-front : (a b : Bytes) → drop (length a) (a ++ b) ≡ b
drop-front [] b = refl
drop-front (x ∷ a) b = drop-front a b

uint16_at-be16 : (n : ℕ) (b : Bytes) → uint16_at (be16 n ++ b) ≡ n
uint16_at-be16 n b = omega arith

-- One name at the front.
names_loop-entry :
    (fuel t : ℕ) (name rest : Bytes)
    → names_loop (suc fuel) (name_entry t name ++ rest) ≡ (
        if t == 0
        then (if ends_in_dot name
            then some (sniff_error not_client_hello)
            else some (server_name name))
        else names_loop fuel rest)
unfolding names_loop
names_loop-entry fuel t name rest =
    let n : uint16_at (be16 (length name) ++ (name ++ rest)) ≡ length name =
      uint16_at-be16 (length name) (name ++ rest) in
    let l = length-append name rest in
    let some_left : (suc (suc (suc (length (name ++ rest)))) == 0) ≡ false = ground arith in
    let three : ltb (suc (suc (suc (length (name ++ rest))))) 3 ≡ false = ground arith in
    let enough : ltb (length (name ++ rest)) (length name) ≡ false = ground arith in
    rw n (rw (some_left, three) (rw (enough, take-front name rest, drop-front name rest) refl))

names_loop-names :
    (others : List (ℕ × Bytes)) (name more : Bytes) (fuel : ℕ)
    → AreOthers others
    → ends_in_dot name ≡ false
    → length others < fuel
    → names_loop fuel (name_list others name more) ≡ some (server_name name)
names_loop-names others name more zero ok dot lt = absurd (omega arith)
names_loop-names [] name more (suc fuel) ok dot lt = names_loop-entry fuel 0 name more ∙ rw dot refl
names_loop-names ((t, other) ∷ others) name more (suc fuel) (o, ok) dot lt =
    names_loop-entry fuel t other (name_list others name more)
    ∙ rw o (names_loop-names others name more fuel ok dot (omega arith))

length-name_list :
    (others : List (ℕ × Bytes)) (name more : Bytes)
    → length others < length (name_list others name more)
length-name_list [] name more = omega arith
length-name_list ((t, other) ∷ others) name more =
    let ih = length-name_list others name more in
    let l = length-append other (name_list others name more) in omega arith

read_names-name :
    (others : List (ℕ × Bytes)) (name more : Bytes)
    → AreOthers others
    → ends_in_dot name ≡ false
    → read_names (be16 (length (name_list others name more)) ++ name_list others name more)
      ≡ some (server_name name)
unfolding read_names
read_names-name others name more ok dot =
    let names = name_list others name more in
    let l = length names in
    let n : uint16_at (be16 l ++ names) ≡ l = uint16_at-be16 l names in
    let enough : ltb (suc (suc l)) 2 ≡ false = ground arith in
    let same : (l == l) ≡ true = ground arith in
    let k = length-name_list others name more in
    rw (n, enough) (rw same (names_loop-names others name more (suc (suc l)) ok dot (omega arith)))

-- One extension at the front.
extensions_loop-extension :
    (fuel t : ℕ) (body rest : Bytes)
    → extensions_loop (suc fuel) (extension t body ++ rest) ≡ (
        if t == 0
        then or_later (read_names body) (extensions_loop fuel rest)
        else extensions_loop fuel rest)
unfolding extensions_loop
extensions_loop-extension fuel t body rest =
    let a : uint16_at (extension t body ++ rest) ≡ t =
      uint16_at-be16 t ((be16 (length body) ++ body) ++ rest) in
    let n : uint16_at (be16 (length body) ++ (body ++ rest)) ≡ length body =
      uint16_at-be16 (length body) (body ++ rest) in
    let l = length-append body rest in
    let some_left : (suc (suc (suc (suc (length (body ++ rest))))) == 0) ≡ false = ground arith in
    let four : ltb (suc (suc (suc (suc (length (body ++ rest)))))) 4 ≡ false = ground arith in
    let enough : ltb (length (body ++ rest)) (length body) ≡ false = ground arith in
    rw (a, n) (rw (some_left, four) (rw (enough, take-front body rest, drop-front body rest) refl))

extensions_loop-extensions_with :
    (others : List (ℕ × Bytes)) (names behind name : Bytes) (fuel : ℕ)
    → AreOthers others
    → read_names (be16 (length names) ++ names) ≡ some (server_name name)
    → length others < fuel
    → extensions_loop fuel (extensions_with others names behind) ≡ server_name name
unfolding or_later
extensions_loop-extensions_with others names behind name zero ok found lt = absurd (omega arith)
extensions_loop-extensions_with [] names behind name (suc fuel) ok found lt =
    extensions_loop-extension fuel 0 (be16 (length names) ++ names) behind
    ∙ rw (found, or_later) refl
extensions_loop-extensions_with ((t, body) ∷ others) names behind name (suc fuel) (other, ok) found
      lt =
    extensions_loop-extension fuel t body (extensions_with others names behind)
    ∙ rw other
        (extensions_loop-extensions_with others names behind name fuel ok found (omega arith))

-- The parts of the message before the extensions.
abbrev pub hello : (head session ciphers compression : Bytes) → Bytes → Bytes
hello head session ciphers compression exts =
    head
    ++ (length session ∷ session
        ++ (be16 (length ciphers)
            ++ (ciphers ++ (length compression ∷ compression ++ (be16 (length exts) ++ exts)))))

length-extensions_with :
    (others : List (ℕ × Bytes)) (names behind : Bytes)
    → length others < length (extensions_with others names behind)
length-extensions_with [] names behind = omega arith
length-extensions_with ((t, body) ∷ others) names behind =
    let ih = length-extensions_with others names behind in
    let l = length-append body (extensions_with others names behind) in omega arith

read_extensions-with :
    (others : List (ℕ × Bytes)) (names behind name : Bytes)
    → AreOthers others
    → read_names (be16 (length names) ++ names) ≡ some (server_name name)
    → read_extensions
        (be16 (length (extensions_with others names behind)) ++ extensions_with others names behind)
      ≡ server_name name
unfolding read_extensions
read_extensions-with others names behind name ok found =
    let e = extensions_with others names behind in
    let n : uint16_at (be16 (length e) ++ e) ≡ length e = uint16_at-be16 (length e) e in
    let two : ltb (suc (suc (length e))) 2 ≡ false = ground arith in
    let same : (length e == length e) ≡ true = ground arith in
    let more = length-extensions_with others names behind in
    rw (n, two)
      (rw same (
        extensions_loop-extensions_with others names behind name (suc (suc (length e))) ok found
          (omega arith)))

read_compression-front :
    (c rest : Bytes) → read_compression (length c ∷ c ++ rest) ≡ read_extensions rest
unfolding read_compression
read_compression-front c rest =
    let l = length-append c rest in
    let one : ltb (suc (length (c ++ rest))) 1 ≡ false = ground arith in
    let k : 1 + length c ≡ suc (length c) = omega arith in
    let enough : ltb (suc (length (c ++ rest))) (suc (length c)) ≡ false = ground arith in
    rw (one, k) (rw (enough, drop-front c rest) refl)

read_ciphers-front :
    (c rest : Bytes)
    → length c % 2 ≡ 0
    → read_ciphers (be16 (length c) ++ (c ++ rest)) ≡ read_compression rest
unfolding read_ciphers
read_ciphers-front c rest even =
    let n : uint16_at (be16 (length c) ++ (c ++ rest)) ≡ length c =
      uint16_at-be16 (length c) (c ++ rest) in
    let l = length-append c rest in
    let two : ltb (suc (suc (length (c ++ rest)))) 2 ≡ false = ground arith in
    let k : 2 + length c ≡ suc (suc (length c)) = omega arith in
    let enough : ltb (suc (suc (length (c ++ rest)))) (suc (suc (length c))) ≡ false =
      ground arith in
    rw (n, two, k) (rw (even, enough) (rw (drop-front c rest) refl))

read_client_hello-front :
    (head session rest : Bytes)
    → length head ≡ 38
    → length session ≤ 32
    → 3 ≤ length rest
    → read_client_hello (head ++ (length session ∷ session ++ rest)) ≡ read_ciphers rest
unfolding read_client_hello
read_client_hello-front head session rest h small more =
    let msg : Bytes = head ++ (length session ∷ session ++ rest) in
    let l = length-append head (length session ∷ session ++ rest) in
    let l' = length-append session rest in
    let at38 : get_or msg 38 0 ≡ length session =
      ap (λ k. get_or msg k 0) (sym h) ∙ get_or-front head (length session) (session ++ rest) in
    let long : ltb (length msg) 42 ≡ false = ground arith in
    let fits : (ltb 32 (length session) || ltb (length msg) (39 + length session)) ≡ false =
      ground arith in
    let k : 39 + length session ≡ length head + suc (length session) = omega arith in
    let left : drop (39 + length session) msg ≡ rest =
      ap (λ x. drop x msg) k
      ∙ drop-more head (suc (length session)) (length session ∷ session ++ rest)
      ∙ drop-front session rest in
    rw (at38, long) (rw (fits, left) refl)
  where
    get_or-front : (a : Bytes) (x : ℕ) (b : Bytes) → get_or (a ++ x ∷ b) (length a) 0 ≡ x
    get_or-front [] x b = refl
    get_or-front (y ∷ a) x b = get_or-front a x b

    drop-more : (a : Bytes) (n : ℕ) (b : Bytes) → drop (length a + n) (a ++ b) ≡ drop n b
    drop-more [] n b = let k : 0 + n ≡ n = omega arith in rw k refl
    drop-more (x ∷ a) n b =
        let k : suc (length a) + n ≡ suc (length a + n) = omega arith in rw k (drop-more a n b)

-- A message of a version of TLS, with a session of at most 32 bytes and ciphers of an even number of bytes, whose
-- extensions are any ones of other types, then the extension of server names, then any bytes, and whose list of names
-- has any names of other types, then that of a host, which does not end in a dot, then any bytes: `SniffTLS` gives the
-- name of the host, whatever bytes follow the message.
pub sniff_tls-hello :
    (minor : ℕ) (head session ciphers compression rest : Bytes) (others names : List (ℕ × Bytes))
    (name more behind : Bytes)
    → length head ≡ 38
    → length session ≤ 32
    → length ciphers % 2 ≡ 0
    → AreOthers others
    → AreOthers names
    → ends_in_dot name ≡ false
    → sniff_tls (
        22
          ∷ 3
          ∷ minor
          ∷ be16 (
              length (
                hello head session ciphers compression
                  (extensions_with others (name_list names name more) behind)))
        ++ (hello head session ciphers compression
              (extensions_with others (name_list names name more) behind)
            ++ rest))
      ≡ server_name name
unfolding sniff_tls
sniff_tls-hello minor head session ciphers compression rest others names name more behind h small
      even ok ok' dot =
    let list = name_list names name more in
    let e = extensions_with others list behind in
    let msg = hello head session ciphers compression e in
    let after : Bytes =
      be16 (length ciphers)
      ++ (ciphers ++ (length compression ∷ compression ++ (be16 (length e) ++ e))) in
    let n : uint16_at (be16 (length msg) ++ (msg ++ rest)) ≡ length msg =
      uint16_at-be16 (length msg) (msg ++ rest) in
    let l = length-append msg rest in
    let five : ltb (suc (suc (suc (suc (suc (length (msg ++ rest))))))) 5 ≡ false = ground arith in
    let fits : ltb (suc (suc (suc (suc (suc (length (msg ++ rest))))))) (5 + length msg) ≡ false =
      ground arith in
    let c = length-append ciphers (length compression ∷ compression ++ (be16 (length e) ++ e)) in
    let three : 3 ≤ length after = omega arith in
    rw (n, five)
      (rw (fits, take-front msg rest)
        (read_client_hello-front head session after h small three
          ∙ read_ciphers-front ciphers (length compression ∷ compression ++ (be16 (length e) ++ e))
              even
          ∙ read_compression-front compression (be16 (length e) ++ e)
          ∙ read_extensions-with others list behind name ok
              (read_names-name names name more ok' dot)))
