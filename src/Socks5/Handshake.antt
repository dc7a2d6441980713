-- ===== src/Socks5/Handshake.antt =====
-- transport/socks5/socks5.go: the handshakes, over a connection with the bytes that the other side sends.
pub mod Reader
pub mod Server
pub mod Client
pub mod Session
use go_warp_scanner.Common.Text.{Text}
use go_warp_scanner.Socks5.{Bytes, atyp_ipv4, atyp_domain_name, atyp_ipv6}
use go_warp_scanner.Common.{
  ℕ, ◌+◌, ◌-◌, ◌%◌, Bool, ◌||◌, Option, none, some, [], ◌∷◌, ◌++◌, ltb, ◌==◌, if◌then◌else◌, length,
  take, drop,
}

abbrev pub cmd_connect : ℕ
cmd_connect = 1

abbrev pub cmd_bind : ℕ
cmd_bind = 2

abbrev pub cmd_udp_associate : ℕ
cmd_udp_associate = 3

-- The bytes to come, the bytes written, and how many writes succeed before the connection breaks.
pub record Conn : Type 0 where
  pub input : Bytes
  pub output : Bytes
  pub writes : ℕ

-- The errors of a handshake: of the connection, and those of the source.
pub data SocksError : Type 0 where
  io_error : SocksError
  err_auth : SocksError
  err_version : SocksError
  err_rejected : SocksError
  err_need_auth : SocksError
  err_command_not_supported : SocksError
  err_address_not_supported : SocksError

pub data Answer (A : Type 0) : Type 0 where
  done : A → Answer A
  failed : SocksError → Answer A

abbrev pub Io : Type 0 → Type 0
Io A = Conn → Conn × Answer A

module _ {A : Type 0} where
  abbrev pub fail : SocksError → Io A
  fail e c = (c, failed e)

  abbrev pub return : A → Io A
  return a c = (c, done a)

  -- `io.ReadFull` of some bytes, and what follows; at the end of the input it fails.
  unfoldable pub read_full : ℕ → (Bytes → Io A) → Io A
  read_full n next c =
      if ltb (length c.input) n
      then (record c { input = [] }, failed io_error)
      else next (take n c.input) (record c { input = drop n c.input })

  -- One byte, read by `ReadFull` or `Read` on a slice of length 1.
  unfoldable pub read_byte : (ℕ → Io A) → Io A
  read_byte next c = elim c.input [
    | [] ↦ (c, failed io_error)
    | b ∷ rest ↦ next b (record c { input = rest })
  ]

  -- `rw.Write` with the test of its error, and what follows.
  unfoldable pub write : Bytes → Io A → Io A
  write b next c =
      if c.writes == 0
      then (c, failed io_error)
      else next (record c { output = c.output ++ b; writes = c.writes - 1 })

  -- `rw.Write` with its error left out.
  unfoldable pub write_any : Bytes → Io A → Io A
  write_any b next c =
      if c.writes == 0
      then next c
      else next (record c { output = c.output ++ b; writes = c.writes - 1 })

  -- The switch of `ReadAddr` on the type.
  read_addr_rest : (Bytes → Io A) → ℕ → Io A
  unfolding read_byte read_full
  read_addr_rest next t =
      if t == atyp_domain_name
      then read_byte (λ n. read_full (n + 2) (λ rest. next (t ∷ n ∷ rest)))
      else if t == atyp_ipv4
      then read_full (4 + 2) (λ rest. next (t ∷ rest))
      else if t == atyp_ipv6
      then read_full (16 + 2) (λ rest. next (t ∷ rest))
      else fail err_address_not_supported

  -- `ReadAddr` on a buffer of enough room, and what follows.
  unfoldable pub read_addr : (Bytes → Io A) → Io A
  unfolding read_byte read_addr_rest
  read_addr next = read_byte (read_addr_rest next)

  -- A user name or a password of the given length.
  server_field : ℕ → (Bytes → Io A) → Io A
  unfolding write_any read_full
  server_field n next = if ltb 0 n then read_full n next else write_any (1 ∷ 1 ∷ []) (fail err_auth)

  -- The part of `ServerHandshake` with an authenticator.
  pub server_auth : (Text → Text → Bool) → Io A → Io A
  unfolding read_byte server_field write write_any
  server_auth verify next = write (5 ∷ 2 ∷ []) (
      read_byte (λ v. read_byte (λ user_len. server_field user_len (λ user. read_byte (λ pass_len.
        server_field pass_len (λ pass.
          if verify user pass
          then write (1 ∷ 0 ∷ []) next
          else write_any (1 ∷ 1 ∷ []) (fail err_auth)))))))

  -- The choice of the method.
  pub server_method : Option (Text → Text → Bool) → Io A → Io A
  unfolding server_auth write
  server_method none next = write (5 ∷ 0 ∷ []) next
  server_method (some verify) next = server_auth verify next

  -- The part of `ClientHandshake` that sends the user.
  client_auth : Option (Text × Text) → Io A → Io A
  unfolding write read_byte
  client_auth none next = fail err_auth
  client_auth (some (name, password)) next =
      write (1 ∷ length name % 256 ∷ name ++ (length password % 256 ∷ password))
        (read_byte (λ v. read_byte (λ status. if status == 0 then next else fail err_rejected)))

  client_method : Option (Text × Text) → ℕ → Io A → Io A
  unfolding client_auth
  client_method user method next =
      if method == 2
      then client_auth user next
      else if method == 0
      then next
      else fail err_need_auth

-- The answer to the command of `ServerHandshake`; `local` is `ParseAddr` of the local address.
pub server_command : Option Bytes → Bytes → ℕ → Io (Bytes × ℕ)
unfolding write
server_command local addr command =
    if command == cmd_connect || command == cmd_udp_associate
    then elim local [
      | none ↦ fail err_address_not_supported
      | some bound ↦ write (5 ∷ 0 ∷ 0 ∷ bound) (return (addr, command))
    ]
    else fail err_command_not_supported

-- `ServerHandshake`: the address and the command.
unfoldable pub server_handshake : Option (Text → Text → Bool) → Option Bytes → Io (Bytes × ℕ)
unfolding read_byte read_full server_method read_addr server_command
server_handshake verify local = read_byte (λ v. read_byte (λ nmethods.
    read_full nmethods (λ methods. server_method verify (
      read_byte (λ v'. read_byte (λ command.
        read_byte (λ reserved. read_addr (λ addr. server_command local addr command))))))))

-- The methods that `ClientHandshake` offers.
greeting : Option (Text × Text) → Bytes
greeting none = 5 ∷ 1 ∷ 0 ∷ []
greeting (some user) = 5 ∷ 1 ∷ 2 ∷ []

-- `ClientHandshake`: the address that the server answers.
unfoldable pub client_handshake : Option (Text × Text) → Bytes → ℕ → Io Bytes
unfolding greeting write read_byte client_method read_addr
client_handshake user addr command = write (greeting user) (
    read_byte (λ version. read_byte (λ method.
      if version == 5
      then client_method user method (
          write (5 ∷ command ∷ 0 ∷ addr)
            (read_byte (λ v. read_byte (λ reply. read_byte (λ reserved. read_addr return)))))
      else fail err_version)))
