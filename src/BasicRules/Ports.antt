-- ===== src/BasicRules/Ports.antt =====
-- rules/common/port.go: the parser of a port rule and its match; common/utils/range.go.
use go_warp_scanner.Common.Text.{Text, split}
use go_warp_scanner.Common.{
  ℕ, suc, ◌+◌, ◌-◌, ◌*◌, ◌^◌, ◌≤◌, ◌<◌, ◌≡◌, subst, ◌↔◌, ◌⊎◌, inl, inr, Bool, true, false, ◌&&◌,
  ◌||◌, Option, none, some, List, [], ◌∷◌, arith, ltb, leb, ◌==◌, if◌then◌else◌, Bool-cases,
  Option-cases, length,
}

-- `utils.Range[uint16]`.
pub record PortRange : Type 0 where
  pub start : ℕ
  pub end : ℕ

-- `NewRange`.
unfoldable pub new_range : ℕ → ℕ → PortRange
new_range start end =
    if ltb end start
    then record { start = end; end = start }
    else record { start = start; end = end }

-- `Contains`.
unfoldable pub range_contains : PortRange → ℕ → Bool
range_contains r t = leb r.start t && leb t r.end

pub data PortType : Type 0 where
  in_port src_port dst_port : PortType

pub record Port : Type 0 where
  pub adapter : Text
  pub port : Text
  pub rule_type : PortType
  pub port_list : List PortRange

any_contains : List PortRange → ℕ → Bool
any_contains [] port = false
any_contains (r ∷ rs) port = range_contains r port || any_contains rs port

-- `matchPortReal`.
unfoldable pub match_port_real : Port → ℕ → Bool
unfolding any_contains
match_port_real p port = any_contains p.port_list port

-- `strings.Trim(s, "[ ]")`.
trimmed : ℕ → Bool
trimmed c = (c == b'[') || ((c == b' ') || (c == b']'))

trim_left : Text → Text
unfolding trimmed
trim_left [] = []
trim_left (c ∷ s) = let rest = trim_left s in if trimmed c then rest else c ∷ s

trim_right : Text → Text
unfolding trimmed
trim_right [] = []
trim_right (c ∷ s) =
    let rest = trim_right s in if trimmed c && (length rest == 0) then [] else c ∷ rest

-- `strconv.ParseUint(s, 10, 16)`; `none` is its error.
parse_digits : ℕ → Text → Option ℕ
parse_digits acc [] = some acc
parse_digits acc (c ∷ s) =
    let value = acc * 10 + (c - 48) in
    let rest = parse_digits value s in
    if leb 48 c && leb c 57 && ltb value 65536 then rest else none

parse_uint16 : Text → Option ℕ
unfolding parse_digits
parse_uint16 [] = none
parse_uint16 (c ∷ s) = parse_digits 0 (c ∷ s)

parse_trimmed : Text → Option ℕ
unfolding parse_uint16 trim_left trim_right
parse_trimmed s = parse_uint16 (trim_right (trim_left s))

-- The range of one part of the text.
sub_ports : List Text → Option PortRange
unfolding parse_trimmed
sub_ports (a ∷ []) = elim (parse_trimmed a) [
  | none ↦ none
  | some start ↦ some (new_range start start)
]
sub_ports (a ∷ b ∷ []) = elim (parse_trimmed a) [
  | none ↦ none
  | some start ↦ elim (parse_trimmed b) [ none ↦ none | some end ↦ some (new_range start end) ]
]
sub_ports _ = none

-- The loop of `NewPort`: an empty part is skipped.
port_ranges : List Text → Option (List PortRange)
unfolding sub_ports split
port_ranges [] = some []
port_ranges (p ∷ ps) =
    let rest = port_ranges ps in
    if length p == 0 then rest else elim (sub_ports (split b'-' p)) [
      | none ↦ none
      | some r ↦ elim rest [ none ↦ none | some rs ↦ some (r ∷ rs) ]
    ]

-- `NewPort`; `none` is its error.
unfoldable pub new_port : Text → Text → PortType → Option Port
unfolding port_ranges
new_port port adapter rule_type =
    if ltb 28 (length (split b'/' port)) then none else elim (port_ranges (split b'/' port)) [
      | none ↦ none
      | some rs ↦
          if length rs == 0
          then none
          else some
              (record { adapter = adapter; port = port; rule_type = rule_type; port_list = rs })
    ]

-- The ends of a range are in order, and are numbers of 16 bits.
abbrev pub AreRanges : List PortRange → Type 0
AreRanges [] = Unit
AreRanges (r ∷ rs) = ((r.start ≤ r.end) × (r.end < 2 ^ 16)) × AreRanges rs

parse_digits_bound : (acc v : ℕ) (s : Text) → acc < 65536 → parse_digits acc s ≡ some v → v < 65536
unfolding parse_digits
parse_digits_bound acc v [] h e = let same : acc ≡ v = cc in omega arith
parse_digits_bound acc v (c ∷ s) h e =
    let value = acc * 10 + (c - 48) in
    elim (Bool-cases (leb 48 c && leb c 57 && ltb value 65536)) [
      | inl t ↦
          let small : value < 65536 = ground arith in parse_digits_bound value v s small (rw t at e)
      | inr f ↦ let e' : none ≡ some v = rw f at e in absurd (cc)
    ]

parse_trimmed_bound : (s : Text) (v : ℕ) → parse_trimmed s ≡ some v → v < 65536
unfolding parse_trimmed
parse_trimmed_bound s v e = by_text (trim_right (trim_left s)) e
  where
    by_text : (t : Text) → parse_uint16 t ≡ some v → v < 65536
    by_text [] e' = absurd (cc)
    by_text (c ∷ t) e' = parse_digits_bound 0 v (c ∷ t) (omega arith) e'

new_range_lem :
    (a b : ℕ)
    → a < 65536
    → b < 65536
    → ((new_range a b).start ≤ (new_range a b).end) × ((new_range a b).end < 2 ^ 16)
unfolding new_range
new_range_lem a b ha hb = ground arith

sub_ports_lem :
    (parts : List Text) (r : PortRange)
    → sub_ports parts ≡ some r
    → (r.start ≤ r.end) × (r.end < 2 ^ 16)
unfolding sub_ports
sub_ports_lem [] r e = absurd (cc)
sub_ports_lem (a ∷ []) r e = elim (Option-cases (parse_trimmed a)) [
  | inl k ↦ let e' : none ≡ some r = rw (k, sub_ports) at e in absurd (cc)
  | inr (v, k) ↦
      let e' : some (new_range v v) ≡ some r = rw (k, sub_ports) at e in
      let same : new_range v v ≡ r = cc in
      let small = parse_trimmed_bound a v k in
      subst (λ x. (x.start ≤ x.end) × (x.end < 2 ^ 16)) same (new_range_lem v v small small)
]
sub_ports_lem (a ∷ b ∷ []) r e = elim (Option-cases (parse_trimmed a)) [
  | inl k ↦ let e' : none ≡ some r = rw (k, sub_ports) at e in absurd (cc)
  | inr (v, k) ↦ elim (Option-cases (parse_trimmed b)) [
    | inl k' ↦
        let e' : none ≡ some r = rw (k', sub_ports) at (rw (k, sub_ports) at e) in absurd (cc)
    | inr (w, k') ↦
        let e' : some (new_range v w) ≡ some r = rw (k', sub_ports) at (rw (k, sub_ports) at e) in
        let same : new_range v w ≡ r = cc in
        subst (λ x. (x.start ≤ x.end) × (x.end < 2 ^ 16)) same
          (new_range_lem v w (parse_trimmed_bound a v k) (parse_trimmed_bound b w k'))
  ]
]
sub_ports_lem (a ∷ b ∷ c ∷ parts) r e = absurd (cc)

port_ranges-AreRanges :
    (ps : List Text) (rs : List PortRange)
    → port_ranges ps ≡ some rs
    → AreRanges rs × (length rs ≤ length ps)
unfolding port_ranges
port_ranges-AreRanges [] rs e =
    let same : [] ≡ rs = cc in subst (λ x. AreRanges x × (length x ≤ 0)) same (tt, omega arith)
port_ranges-AreRanges (p ∷ ps) rs e = elim (Bool-cases (length p == 0)) [
  | inl t ↦ let (ok, n) = port_ranges-AreRanges ps rs (rw t at e) in (ok, omega arith)
  | inr f ↦ elim (Option-cases (sub_ports (split b'-' p))) [
    | inl k ↦ let e' : none ≡ some rs = rw (k, port_ranges) at (rw f at e) in absurd (cc)
    | inr (r, k) ↦ elim (Option-cases (port_ranges ps)) [
      | inl k' ↦
          let e' : none ≡ some rs = rw (k', port_ranges) at (rw (k, port_ranges) at (rw f at e)) in
          absurd (cc)
      | inr (rest, k') ↦
          let e' : some (r ∷ rest) ≡ some rs =
            rw (k', port_ranges) at (rw (k, port_ranges) at (rw f at e)) in
          let same : r ∷ rest ≡ rs = cc in
          let (ok, n) = port_ranges-AreRanges ps rest k' in
          subst (λ x. AreRanges x × (length x ≤ suc (length ps))) same
            ((sub_ports_lem (split b'-' p) r k, ok), omega arith)
    ]
  ]
]

-- A port rule that `NewPort` returns has between 1 and 28 ranges, and the ends of each are in order and
-- are numbers of 16 bits.
pub new_port-AreRanges :
    (port adapter : Text) (rule_type : PortType) (p : Port)
    → new_port port adapter rule_type ≡ some p
    → AreRanges p.port_list × (1 ≤ length p.port_list) × (length p.port_list ≤ 28)
unfolding new_port
new_port-AreRanges port adapter rule_type p e =
    elim (Bool-cases (ltb 28 (length (split b'/' port)))) [
      | inl t ↦ let e' : none ≡ some p = rw t at e in absurd (cc)
      | inr f ↦ elim (Option-cases (port_ranges (split b'/' port))) [
        | inl k ↦ let e' : none ≡ some p = rw (k, new_port) at (rw f at e) in absurd (cc)
        | inr (rs, k) ↦ elim (Bool-cases (length rs == 0)) [
          | inl z ↦
              let e' : none ≡ some p = rw z at (rw (k, new_port) at (rw f at e)) in absurd (cc)
          | inr nz ↦
              let q : Port = record {
                adapter = adapter;
                port = port;
                rule_type = rule_type;
                port_list = rs;
              } in
              let e' : some q ≡ some p = rw nz at (rw (k, new_port) at (rw f at e)) in
              let same : q ≡ p = cc in
              let (ok, n) = port_ranges-AreRanges (split b'/' port) rs k in
              let few : length (split b'/' port) ≤ 28 = ground arith in
              let any : 1 ≤ length rs = ground arith in
              subst
                (λ x. AreRanges x.port_list × (1 ≤ length x.port_list) × (length x.port_list ≤ 28))
                same (ok, any, omega arith)
        ]
      ]
    ]

-- Of two ends read in any order, a port rule of one range matches the ports between them, both
-- included, and no other.
pub match_port_real-new_range :
    (adapter port : Text) (rule_type : PortType) (a b n : ℕ)
    → (match_port_real
          (record {
            adapter = adapter;
            port = port;
            rule_type = rule_type;
            port_list = new_range a b ∷ [];
          })
          n
        ≡ true)
      ↔ (((a ≤ n) × (n ≤ b)) ⊎ ((b ≤ n) × (n ≤ a)))
unfolding match_port_real new_range range_contains
match_port_real-new_range adapter port rule_type a b n = (
  λ h. elim (Bool-cases (ltb b a)) [ inl t ↦ inr (ground arith) | inr f ↦ inl (ground arith) ],
  λ h. elim h [ inl (lo, hi) ↦ ground arith | inr (lo, hi) ↦ ground arith ],
)
