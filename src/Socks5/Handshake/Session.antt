-- ===== src/Socks5/Handshake/Session.antt =====
-- transport/socks5/socks5.go: the two sides of a handshake, each on what the other writes.
use go_warp_scanner.Common.Text.{Text}
use go_warp_scanner.Socks5.{Bytes}
use go_warp_scanner.Socks5.Addr.{IsAddr}
use go_warp_scanner.Socks5.Handshake.{
  cmd_connect, cmd_udp_associate, Conn, err_auth, err_rejected, done, failed, read_byte, write,
  write_any, server_method, client_auth, client_method, server_handshake, greeting,
  client_handshake,
}
use go_warp_scanner.Socks5.Handshake.Server.{
  conn, user_bytes, client_bytes, server_bytes, Accepts, request_part, server_auth-user_bytes,
  server_handshake-greeting, server_handshake-client_bytes,
}
use go_warp_scanner.Socks5.Handshake.Client.{client_handshake-server_bytes}
use go_warp_scanner.Common.{
  ℕ, ◌-◌, ◌%◌, ◌≤◌, ◌≡◌, refl, ap, ◌∙◌, Bool, true, false, ◌||◌, Option, some, [], ◌∷◌, ◌++◌,
  append_assoc, arith, ◌==◌, length,
}

-- A handshake of `ClientHandshake` with `ServerHandshake` for whole addresses and the commands to connect and to
-- associate, where the server takes the user of the client or neither has one, and three writes of each side do not
-- fail: on what the client writes the server returns its address and command and writes what the client, on that,
-- returns the bound address for, having written what the server read. Bytes that follow are left alone.
pub handshake_accepted :
    (verify : Option (Text → Text → Bool)) (user : Option (Text × Text))
    (addr bound rest rest' : Bytes) (command writes : ℕ)
    → IsAddr addr
    → IsAddr bound
    → Accepts verify user
    → (command == cmd_connect || command == cmd_udp_associate) ≡ true
    → 3 ≤ writes
    → ((left : ℕ) × (server_handshake verify
            (some bound)
            (conn (client_bytes user addr command ++ rest) writes)
          ≡ (
            record { input = rest; output = server_bytes user bound; writes = left },
            done (addr, command),
          )))
      × ((left : ℕ) × (client_handshake user addr command
              (conn (server_bytes user bound ++ rest') writes)
            ≡ (
              record { input = rest'; output = client_bytes user addr command; writes = left },
              done bound,
            )))
handshake_accepted verify user addr bound rest rest' command writes ok ok' accepts t le = (
  server_handshake-client_bytes verify user addr bound rest command writes ok accepts t le,
  client_handshake-server_bytes verify user addr bound rest' command writes ok' accepts le,
)

-- A user of a name and a password of 1 to 255 bytes that the authenticator refuses: the server writes the method and the
-- refusal and fails for the authentication, and the client fails on what it writes.
pub handshake_rejected :
    (verify : Text → Text → Bool) (name password addr bound rest : Bytes) (command writes : ℕ)
    → 1 ≤ length name
    → length name ≤ 255
    → 1 ≤ length password
    → length password ≤ 255
    → verify name password ≡ false
    → 2 ≤ writes
    → ((server_handshake
          (some verify)
          (some bound)
          (conn (5 ∷ 1 ∷ 2 ∷ user_bytes (name, password) ++ rest) writes)).1
        ≡ failed err_auth)
      × ((server_handshake
            (some verify)
            (some bound)
            (conn (5 ∷ 1 ∷ 2 ∷ user_bytes (name, password) ++ rest) writes)).0.output
          ≡ 5 ∷ 2 ∷ 1 ∷ 1 ∷ [])
      × ((client_handshake
            (some (name, password))
            addr
            command
            (conn (5 ∷ 2 ∷ 1 ∷ 1 ∷ []) writes)).1
          ≡ failed err_rejected)
unfolding server_method write_any client_handshake client_method client_auth greeting read_byte
    write
handshake_rejected verify name password addr bound rest command writes n1 n2 p1 p2 v le =
    let w : (writes == 0) ≡ false = ground arith in
    let w' : (writes - 1 == 0) ≡ false = ground arith in
    let c : Conn =
      conn (1 ∷ length name % 256 ∷ name ++ (length password % 256 ∷ password ++ rest)) writes in
    let moved : user_bytes (name, password) ++ rest ≡ c.input =
      ap (λ x. 1 ∷ length name % 256 ∷ x)
        (append_assoc name (length password % 256 ∷ password) rest) in
    let s : server_handshake (some verify) (some bound) (conn (5 ∷ 1 ∷ 2 ∷ c.input) writes) ≡ (
      record { input = rest; output = 5 ∷ 2 ∷ 1 ∷ 1 ∷ []; writes = writes - 1 - 1 },
      failed err_auth,
    ) =
      server_handshake-greeting (some verify) (some bound) 5 2 c.input writes
      ∙ server_auth-user_bytes verify name password rest (request_part (some bound)) c n1 n2 p1 p2
          (omega arith) refl
      ∙ rw v (rw w' refl) in
    (
      ap (λ x. (server_handshake (some verify) (some bound) (conn (5 ∷ 1 ∷ 2 ∷ x) writes)).1) moved
          ∙ ap (λ x. x.1) s,
      ap (λ x. (server_handshake (some verify) (some bound) (conn (5 ∷ 1 ∷ 2 ∷ x) writes)).0.output)
            moved
          ∙ ap (λ x. x.0.output) s,
      rw w (rw w' refl),
    )
