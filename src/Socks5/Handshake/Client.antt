-- ===== src/Socks5/Handshake/Client.antt =====
-- transport/socks5/socks5.go: `ClientHandshake` on what a server writes.
use go_warp_scanner.Common.Text.{Text}
use go_warp_scanner.Socks5.{Bytes}
use go_warp_scanner.Socks5.Addr.{IsAddr}
use go_warp_scanner.Socks5.Handshake.{
  Conn, done, return, read_byte, write, read_addr, client_auth, client_method, greeting,
  client_handshake,
}
use go_warp_scanner.Socks5.Handshake.Reader.{read_addr-append}
use go_warp_scanner.Socks5.Handshake.Server.{conn, user_bytes, client_bytes, server_bytes, Accepts}
use go_warp_scanner.Common.{
  ℕ, ◌-◌, ◌≤◌, ◌<◌, ◌≡◌, refl, Bool, false, Option, none, some, [], ◌∷◌, ◌++◌, arith, ◌==◌,
}

-- The end of the client: the request and the answer.
client_request :
    (addr bound rest : Bytes) (command : ℕ) (c : Conn)
    → IsAddr bound
    → 0 < c.writes
    → c.input ≡ 5 ∷ 0 ∷ 0 ∷ bound ++ rest
    → write
        (5 ∷ command ∷ 0 ∷ addr)
        (read_byte (λ v. read_byte (λ reply. read_byte (λ reserved. read_addr return))))
        c
      ≡ (
        record c {
          input = rest;
          output = c.output ++ 5 ∷ command ∷ 0 ∷ addr;
          writes = c.writes - 1;
        },
        done bound,
      )
unfolding read_byte write
client_request addr bound rest command c ok lt e =
    let w : (c.writes == 0) ≡ false = ground arith in
    let k = record c {
      input = bound ++ rest;
      output = c.output ++ 5 ∷ command ∷ 0 ∷ addr;
      writes = c.writes - 1;
    } in
    rw w (rw (e, read_byte) (read_addr-append bound rest return k ok refl))

-- The client on what the server writes: it returns the address of the server.
pub client_handshake-server_bytes :
    (verify : Option (Text → Text → Bool)) (user : Option (Text × Text)) (addr bound rest : Bytes)
    (command writes : ℕ)
    → IsAddr bound
    → Accepts verify user
    → 3 ≤ writes
    → (left : ℕ) × (client_handshake user addr command
          (conn (server_bytes user bound ++ rest) writes)
        ≡ (
          record { input = rest; output = client_bytes user addr command; writes = left },
          done bound,
        ))
unfolding client_handshake client_method client_auth greeting read_byte write
client_handshake-server_bytes none none addr bound rest command writes ok accepts le =
    let w : (writes == 0) ≡ false = ground arith in
    (
      writes - 1 - 1,
      rw w (
          client_request addr bound rest command
            (record {
              input = 5 ∷ 0 ∷ 0 ∷ bound ++ rest;
              output = 5 ∷ 1 ∷ 0 ∷ [];
              writes = writes - 1;
            })
            ok (omega arith) refl),
    )
client_handshake-server_bytes none (some user) addr bound rest command writes ok accepts le =
    absurd accepts
client_handshake-server_bytes (some verify) none addr bound rest command writes ok accepts le =
    absurd accepts
client_handshake-server_bytes (some verify) (some (name, password)) addr bound rest command writes
      ok accepts le =
    let w : (writes == 0) ≡ false = ground arith in
    let w' : (writes - 1 == 0) ≡ false = ground arith in
    (
      writes - 1 - 1 - 1,
      rw w (
          rw w' (
            client_request addr bound rest command
              (record {
                input = 5 ∷ 0 ∷ 0 ∷ bound ++ rest;
                output = 5 ∷ 1 ∷ 2 ∷ user_bytes (name, password);
                writes = writes - 1 - 1;
              })
              ok (omega arith) refl)),
    )
