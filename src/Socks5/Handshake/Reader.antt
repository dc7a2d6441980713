-- ===== src/Socks5/Handshake/Reader.antt =====
-- transport/socks5/socks5.go: `ReadAddr` on a connection against `SplitAddr` on its bytes.
use go_warp_scanner.Socks5.{
  Bytes, atyp_ipv4, atyp_domain_name, atyp_ipv6, domain_len, addr_len, split_addr,
}
use go_warp_scanner.Socks5.Addr.{IsAddr, split_addr-append, drop-append}
use go_warp_scanner.Socks5.Handshake.{
  Conn, SocksError, io_error, err_address_not_supported, failed, Io, read_full, read_byte,
  read_addr_rest, read_addr,
}
use go_warp_scanner.Common.{
  ℕ, suc, ◌+◌, ◌≤◌, ◌<◌, ◌≡◌, refl, sym, ap, ◌∙◌, subst, inl, inr, true, false, Option, none, some,
  [], ◌∷◌, ◌++◌, arith, ltb, ◌==◌, if◌then◌else◌, Bool-cases, length, take, drop, length-take,
}

-- What reads on a connection of which the input is given.
pub read_byte-cons :
    {A : Type 0} (b : ℕ) (rest : Bytes) (next : ℕ → Io A) (c : Conn)
    → c.input ≡ b ∷ rest
    → read_byte next c ≡ next b (record c { input = rest })
unfolding read_byte
read_byte-cons b rest next c e = rw (e, read_byte) refl

read_byte-nil :
    {A : Type 0} (next : ℕ → Io A) (c : Conn)
    → c.input ≡ []
    → (read_byte next c).1 ≡ failed io_error
unfolding read_byte
read_byte-nil next c e = rw (e, read_byte) refl

module _ {A : Type 0} where
  -- The rest of an address after some bytes are read, if it has `n` more.
  read_full-enough :
      (n : ℕ) (next : Bytes → Io A) (c : Conn)
      → n ≤ length c.input
      → read_full n next c ≡ next (take n c.input) (record c { input = drop n c.input })
  unfolding read_full
  read_full-enough n next c le = let t : ltb (length c.input) n ≡ false = ground arith in rw t refl

  read_full-short :
      (n : ℕ) (next : Bytes → Io A) (c : Conn)
      → length c.input < n
      → read_full n next c ≡ (record c { input = [] }, failed io_error)
  unfolding read_full
  read_full-short n next c lt = let t : ltb (length c.input) n ≡ true = ground arith in rw t refl

  -- What `ReadAddr` does for a result of `SplitAddr` on the input: it fails, or goes on behind the address.
  unfoldable pub Splits : (Bytes → Io A) → Conn → Option Bytes → Type 0
  Splits next c none = (e : SocksError) × ((read_addr next c).1 ≡ failed e)
  Splits next c (some a) = read_addr next c ≡ next a (record c { input = drop (length a) c.input })

length-take_all : (n : ℕ) (b : Bytes) → n ≤ length b → length (take n b) ≡ n
length-take_all n b le = let m = length-take n b in omega arith

addr_len-type :
    (t : ℕ) (rest : Bytes) (o : Option ℕ)
    → (if t == atyp_domain_name
        then domain_len rest
        else if t == atyp_ipv4
        then some 7
        else if t == atyp_ipv6
        then some 19
        else none)
      ≡ o
    → addr_len (t ∷ rest) ≡ o
unfolding addr_len
addr_len-type t rest o e = e

module _ {A : Type 0} where
  fixed_part :
      (n : ℕ) (t : ℕ) (rest : Bytes) (next : Bytes → Io A) (c : Conn)
      → c.input ≡ t ∷ rest
      → read_addr next c ≡ read_full n (λ b. next (t ∷ b)) (record c { input = rest })
      → Splits next c
          (if ltb (length (t ∷ rest)) (suc n) then none else some (take (suc n) (t ∷ rest)))
  unfolding Splits
  fixed_part n t rest next c e r = elim (Bool-cases (ltb (length (t ∷ rest)) (suc n))) [
    | inl s ↦
        let lt : length rest < n = ground arith in
        rw s (
          io_error,
          ap (λ x. x.1) (r ∙ read_full-short n (λ b. next (t ∷ b)) (record c { input = rest }) lt),
        )
    | inr s ↦
        let le : n ≤ length rest = ground arith in
        let m = length-take_all n rest le in
        rw s (
          r
          ∙ read_full-enough n (λ b. next (t ∷ b)) (record c { input = rest }) le
          ∙ ap (λ x. next (t ∷ take n rest) (record c { input = x }))
              (ap (λ k. drop k rest) (sym m) ∙ ap (drop (suc (length (take n rest)))) (sym e)))
  ]

  domain_part :
      (n : ℕ) (rest : Bytes) (next : Bytes → Io A) (c : Conn)
      → c.input ≡ 3 ∷ n ∷ rest
      → read_addr next c ≡ read_full (n + 2) (λ b. next (3 ∷ n ∷ b)) (record c { input = rest })
      → Splits next c (
          if ltb (length (3 ∷ n ∷ rest)) (suc (suc (n + 2)))
          then none
          else some (take (suc (suc (n + 2))) (3 ∷ n ∷ rest)))
  unfolding Splits
  domain_part n rest next c e r =
      elim (Bool-cases (ltb (length (3 ∷ n ∷ rest)) (suc (suc (n + 2))))) [
        | inl s ↦
            let lt : length rest < n + 2 = ground arith in
            rw s (
              io_error,
              ap (λ x. x.1)
                  (r
                    ∙ read_full-short (n + 2) (λ b. next (3 ∷ n ∷ b)) (record c { input = rest })
                        lt),
            )
        | inr s ↦
            let le : n + 2 ≤ length rest = ground arith in
            let m = length-take_all (n + 2) rest le in
            rw s (
              r
              ∙ read_full-enough (n + 2) (λ b. next (3 ∷ n ∷ b)) (record c { input = rest }) le
              ∙ ap (λ x. next (3 ∷ n ∷ take (n + 2) rest) (record c { input = x }))
                  (ap (λ k. drop k rest) (sym m)
                    ∙ ap (drop (suc (suc (length (take (n + 2) rest))))) (sym e)))
      ]

  domain_next : (Bytes → Io A) → ℕ → Io A
  domain_next next n = read_full (n + 2) (λ b. next (3 ∷ n ∷ b))

  read_addr-domain :
      (rest : Bytes) (next : Bytes → Io A) (c : Conn)
      → c.input ≡ 3 ∷ rest
      → read_addr next c ≡ read_byte (domain_next next) (record c { input = rest })
  unfolding read_addr read_addr_rest domain_next
  read_addr-domain rest next c e = read_byte-cons 3 rest (read_addr_rest next) c e

  by_input :
      (b : Bytes) (next : Bytes → Io A) (c : Conn) → c.input ≡ b → Splits next c (split_addr b)
  unfolding split_addr addr_len domain_len read_addr read_addr_rest Splits domain_next
  by_input [] next c e = (io_error, read_byte-nil (read_addr_rest next) c e)
  by_input (t ∷ rest) next c e = elim (Bool-cases (t == 3)) [
    | inl d ↦
        let k : t ≡ 3 = ground arith in
        subst (λ x. Splits next c (split_addr (x ∷ rest))) (sym k)
          (domain_case rest (e ∙ ap (λ x. x ∷ rest) k))
    | inr d ↦ elim (Bool-cases (t == 1)) [
      | inl f ↦
          rw (addr_len-type t rest (some 7) (rw (d, f) refl), split_addr)
            (fixed_part 6 t rest next c e
              (read_byte-cons t rest (read_addr_rest next) c e ∙ rw (d, f) refl))
      | inr f ↦ elim (Bool-cases (t == 4)) [
        | inl g ↦
            rw (addr_len-type t rest (some 19) (rw (d, f, g) refl), split_addr)
              (fixed_part 18 t rest next c e
                (read_byte-cons t rest (read_addr_rest next) c e ∙ rw (d, f, g) refl))
        | inr g ↦
            rw (addr_len-type t rest none (rw (d, f, g) refl), split_addr)
              (
                err_address_not_supported,
                (let out : read_addr_rest next t (record c { input = rest })
                        ≡ (record c { input = rest }, failed err_address_not_supported) =
                      rw (d, f, g) refl in
                    ap (λ x. x.1) (read_byte-cons t rest (read_addr_rest next) c e ∙ out)),
              )
      ]
    ]
  ]
    where
      domain_case : (rest : Bytes) → c.input ≡ 3 ∷ rest → Splits next c (split_addr (3 ∷ rest))
      domain_case [] e' = (
        io_error,
        ap (λ x. x.1) (read_addr-domain [] next c e')
            ∙ read_byte-nil (domain_next next) (record c { input = [] }) refl,
      )
      domain_case (n ∷ rest') e' =
          let same : 1 + 1 + n + 2 ≡ suc (suc (n + 2)) = omega arith in
          rw (same) (
            domain_part n rest' next c e' (
              read_addr-domain (n ∷ rest') next c e'
              ∙ read_byte-cons n rest' (domain_next next) (record c { input = n ∷ rest' }) refl))

-- An address that stands at the front of the input is read, and what follows goes on behind it.
pub read_addr-append :
    {A : Type 0} (a rest : Bytes) (next : Bytes → Io A) (c : Conn)
    → IsAddr a
    → c.input ≡ a ++ rest
    → read_addr next c ≡ next a (record c { input = rest })
unfolding Splits
read_addr-append a rest next c ok e =
    let split : split_addr c.input ≡ some a = ap split_addr e ∙ split_addr-append a rest ok in
    subst (Splits next c) split (by_input c.input next c refl)
    ∙ ap (λ x. next a (record c { input = x })) (ap (drop (length a)) e ∙ drop-append a rest)

-- `ReadAddr` on a connection, with what follows it: if `SplitAddr` gives an address on the bytes to come, what follows is
-- given that address and the bytes behind it; if it gives none, `ReadAddr` fails.
pub read_addr-split_addr :
    {A : Type 0} (next : Bytes → Io A) (c : Conn) → Splits next c (split_addr c.input)
read_addr-split_addr next c = by_input c.input next c refl
