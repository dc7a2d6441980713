-- ===== src/Socks5/Handshake/Server.antt =====
-- transport/socks5/socks5.go: `ServerHandshake` on what a client writes.
use go_warp_scanner.Common.Text.{Text}
use go_warp_scanner.Socks5.{Bytes}
use go_warp_scanner.Socks5.Addr.{IsAddr, take-append, drop-append}
use go_warp_scanner.Socks5.Handshake.{
  cmd_connect, cmd_udp_associate, Conn, err_auth, done, Io, fail, read_full, read_byte, write,
  write_any, read_addr, server_field, server_auth, server_method, server_command, server_handshake,
}
use go_warp_scanner.Socks5.Handshake.Reader.{read_addr-append}
use go_warp_scanner.Common.{
  ℕ, ◌-◌, ◌%◌, ◌≤◌, ◌<◌, ◌≡◌, refl, ap, ◌∙◌, Bool, true, false, ◌||◌, Option, none, some, [], ◌∷◌,
  ◌++◌, append_assoc, arith, ltb, ◌==◌, if◌then◌else◌, length, length-append,
}

-- A connection with some input, nothing written yet, and room for some writes.
abbrev pub conn : Bytes → ℕ → Conn
conn input writes = record { input = input; output = []; writes = writes }

-- What the client writes, and what the server does, for a user or for none.
abbrev pub user_bytes : Text × Text → Bytes
user_bytes (name, password) = 1 ∷ length name % 256 ∷ name ++ (length password % 256 ∷ password)

abbrev pub client_bytes : Option (Text × Text) → Bytes → ℕ → Bytes
client_bytes none addr command = 5 ∷ 1 ∷ 0 ∷ 5 ∷ command ∷ 0 ∷ addr
client_bytes (some user) addr command = 5 ∷ 1 ∷ 2 ∷ user_bytes user ++ 5 ∷ command ∷ 0 ∷ addr

abbrev pub server_bytes : Option (Text × Text) → Bytes → Bytes
server_bytes none bound = 5 ∷ 0 ∷ 5 ∷ 0 ∷ 0 ∷ bound
server_bytes (some user) bound = 5 ∷ 2 ∷ 1 ∷ 0 ∷ 5 ∷ 0 ∷ 0 ∷ bound

-- The authenticator of the server takes the user of the client; without one neither side has a user.
abbrev pub Accepts : Option (Text → Text → Bool) → Option (Text × Text) → Type 0
Accepts none none = Unit
Accepts none (some user) = ⊥
Accepts (some verify) none = ⊥
Accepts (some verify) (some (name, password)) =
    ((1 ≤ length name) × (length name ≤ 255))
    × ((1 ≤ length password) × (length password ≤ 255))
    × (verify name password ≡ true)

read_full-append :
    {A : Type 0} (b rest : Bytes) (next : Bytes → Io A) (c : Conn)
    → c.input ≡ b ++ rest
    → read_full (length b) next c ≡ next b (record c { input = rest })
unfolding read_full
read_full-append b rest next c e =
    let n = length-append b rest in
    let t : ltb (length (b ++ rest)) (length b) ≡ false = ground arith in
    rw e (rw (t, take-append b rest, drop-append b rest) refl)

-- The end of the server: the request and the answer.
server_request :
    (addr bound rest : Bytes) (command : ℕ) (c : Conn)
    → IsAddr addr
    → (command == cmd_connect || command == cmd_udp_associate) ≡ true
    → 0 < c.writes
    → c.input ≡ 5 ∷ command ∷ 0 ∷ addr ++ rest
    → read_byte
        (λ v.
          read_byte (λ k. read_byte (λ reserved. read_addr (λ a. server_command (some bound) a k))))
        c
      ≡ (
        record c { input = rest; output = c.output ++ 5 ∷ 0 ∷ 0 ∷ bound; writes = c.writes - 1 },
        done (addr, command),
      )
unfolding read_byte server_command write
server_request addr bound rest command c ok t lt e =
    let w : (c.writes == 0) ≡ false = ground arith in
    let k = record c { input = addr ++ rest } in
    rw (e, read_byte)
      (read_addr-append addr rest (λ a. server_command (some bound) a command) k ok refl
        ∙ rw (t, server_command) (rw w refl))

-- A field of the user, as the server reads it.
server_field-append :
    {A : Type 0} (b rest : Bytes) (next : Bytes → Io A) (c : Conn)
    → 1 ≤ length b
    → length b ≤ 255
    → c.input ≡ b ++ rest
    → server_field (length b % 256) next c ≡ next b (record c { input = rest })
unfolding server_field
server_field-append b rest next c one small e =
    let whole : length b % 256 ≡ length b = omega arith in
    let t : ltb 0 (length b) ≡ true = ground arith in
    rw whole (rw t (read_full-append b rest next c e))

-- The part of the server that takes a user.
pub server_auth-user_bytes :
    {A : Type 0} (verify : Text → Text → Bool) (name password rest : Bytes) (next : Io A) (c : Conn)
    → 1 ≤ length name
    → length name ≤ 255
    → 1 ≤ length password
    → length password ≤ 255
    → 1 < c.writes
    → c.input ≡ 1 ∷ length name % 256 ∷ name ++ (length password % 256 ∷ password ++ rest)
    → server_auth verify next c
      ≡ (if verify name password
            then write (1 ∷ 0 ∷ []) next
            else write_any (1 ∷ 1 ∷ []) (fail err_auth))
          (record c { input = rest; output = c.output ++ 5 ∷ 2 ∷ []; writes = c.writes - 1 })
unfolding server_auth write read_byte
server_auth-user_bytes {A = A} verify name password rest next c n1 n2 p1 p2 lt e =
    let w : (c.writes == 0) ≡ false = ground arith in
    let finish : Bytes → Bytes → Io A = λ user pass.
      if verify user pass
      then write (1 ∷ 0 ∷ []) next
      else write_any (1 ∷ 1 ∷ []) (fail err_auth) in
    let k : Conn = record c {
      input = name ++ (length password % 256 ∷ password ++ rest);
      output = c.output ++ 5 ∷ 2 ∷ [];
      writes = c.writes - 1;
    } in
    let k' : Conn = record k { input = password ++ rest } in
    rw w (
      rw (e, read_byte)
        (server_field-append name (length password % 256 ∷ password ++ rest)
            (λ user. read_byte (λ pass_len. server_field pass_len (finish user))) k n1 n2 refl
          ∙ server_field-append password rest (finish name) k' p1 p2 refl))

-- The part of the server behind the choice of the method.
abbrev pub request_part : Option Bytes → Io (Bytes × ℕ)
request_part local = read_byte (λ v'.
    read_byte
      (λ command. read_byte (λ reserved. read_addr (λ addr. server_command local addr command))))

-- The greeting of a client that offers one method.
pub server_handshake-greeting :
    (verify : Option (Text → Text → Bool)) (local : Option Bytes) (v m : ℕ) (rest : Bytes)
    (writes : ℕ)
    → server_handshake verify local (conn (v ∷ 1 ∷ m ∷ rest) writes)
      ≡ server_method verify (request_part local) (conn rest writes)
unfolding server_handshake read_byte
server_handshake-greeting verify local v m rest writes =
    read_full-append (m ∷ []) rest (λ methods. server_method verify (request_part local))
      (conn (m ∷ rest) writes) refl

-- The server on what a client writes, whose user it accepts: it returns the address and the command.
pub server_handshake-client_bytes :
    (verify : Option (Text → Text → Bool)) (user : Option (Text × Text)) (addr bound rest : Bytes)
    (command writes : ℕ)
    → IsAddr addr
    → Accepts verify user
    → (command == cmd_connect || command == cmd_udp_associate) ≡ true
    → 3 ≤ writes
    → (left : ℕ) × (server_handshake verify
          (some bound)
          (conn (client_bytes user addr command ++ rest) writes)
        ≡ (
          record { input = rest; output = server_bytes user bound; writes = left },
          done (addr, command),
        ))
unfolding server_method write
server_handshake-client_bytes none none addr bound rest command writes ok accepts t le =
    let w : (writes == 0) ≡ false = ground arith in
    (
      writes - 1 - 1,
      server_handshake-greeting none (some bound) 5 0 (5 ∷ command ∷ 0 ∷ addr ++ rest) writes
          ∙ rw w (
              server_request addr bound rest command
                (record {
                  input = 5 ∷ command ∷ 0 ∷ addr ++ rest;
                  output = 5 ∷ 0 ∷ [];
                  writes = writes - 1;
                })
                ok t (omega arith) refl),
    )
server_handshake-client_bytes none (some user) addr bound rest command writes ok accepts t le =
    absurd accepts
server_handshake-client_bytes (some verify) none addr bound rest command writes ok accepts t le =
    absurd accepts
server_handshake-client_bytes (some verify) (some (name, password)) addr bound rest command writes
      ok ((n1, n2), (p1, p2), v) t le =
    let request : Bytes = 5 ∷ command ∷ 0 ∷ addr ++ rest in
    let c : Conn =
      conn (1 ∷ length name % 256 ∷ name ++ (length password % 256 ∷ password ++ request)) writes in
    let w : (writes - 1 == 0) ≡ false = ground arith in
    let moved : (user_bytes (name, password) ++ 5 ∷ command ∷ 0 ∷ addr) ++ rest ≡ c.input =
      user_append name password (5 ∷ command ∷ 0 ∷ addr) rest in
    (
      writes - 1 - 1 - 1,
      rw moved (
          server_handshake-greeting (some verify) (some bound) 5 2 c.input writes
          ∙ server_auth-user_bytes verify name password request (request_part (some bound)) c n1 n2
              p1 p2 (omega arith) refl
          ∙ rw v (
              rw w (
                server_request addr bound rest command
                  (record { input = request; output = 5 ∷ 2 ∷ 1 ∷ 0 ∷ []; writes = writes - 1 - 1 })
                  ok t (omega arith) refl))),
    )
  where
    user_append :
        (name password more rest : Bytes)
        → (user_bytes (name, password) ++ more) ++ rest
          ≡ 1 ∷ length name % 256 ∷ name ++ (length password % 256 ∷ password ++ (more ++ rest))
    user_append name password more rest =
        ap (λ x. 1 ∷ length name % 256 ∷ x)
          (ap (λ x. x ++ rest) (append_assoc name (length password % 256 ∷ password) more)
            ∙ append_assoc name (length password % 256 ∷ password ++ more) rest
            ∙ ap (λ x. name ++ length password % 256 ∷ x) (append_assoc password more rest))
