-- ===== src/FakeIp/Memory/Pairs.antt =====
-- Lists of hosts with their addresses: what the store in memory holds, the least recent first.
use go_warp_scanner.Common.Text.{Text, text_eq, text_eq→≡, text_eq_iff}
use go_warp_scanner.LruCache.Ideal.{trim}
use go_warp_scanner.Common.{
  ℕ, ◌≡◌, refl, sym, ap, ◌∙◌, inl, inr, true, false, ◌&&◌, Option, none, some, List, [], ◌∷◌, ◌++◌,
  arith, ltb, ◌==◌, if◌then◌else◌, Bool-cases, length, drop,
}

abbrev pub Pairs : Type 0
Pairs = List (Text × ℕ)

abbrev pub ip_for : Text → Pairs → Option ℕ
ip_for h [] = none
ip_for h ((g, ip) ∷ rest) = if text_eq g h then some ip else ip_for h rest

abbrev pub host_for : ℕ → Pairs → Option Text
host_for ip [] = none
host_for ip ((h, jp) ∷ rest) = if jp == ip then some h else host_for ip rest

abbrev pub without_host : Text → Pairs → Pairs
without_host h [] = []
without_host h ((g, ip) ∷ rest) =
    let others = without_host h rest in if text_eq g h then others else (g, ip) ∷ others

abbrev pub without_ip : ℕ → Pairs → Pairs
without_ip ip [] = []
without_ip ip ((h, jp) ∷ rest) =
    let others = without_ip ip rest in if jp == ip then others else (h, jp) ∷ others

-- No two pairs have the same host or the same address.
abbrev pub Distinct : Pairs → Type 0
Distinct [] = Unit
Distinct ((h, ip) ∷ rest) = ((ip_for h rest ≡ none) × (host_for ip rest ≡ none)) × Distinct rest

pub absent_ip : (ip : ℕ) (l : Pairs) → host_for ip l ≡ none → without_ip ip l ≡ l
absent_ip ip [] f = refl
absent_ip ip ((g, jp) ∷ rest) f = elim (Bool-cases (jp == ip)) [
  | inl t ↦ let f' : some g ≡ none = rw t at f in absurd (cc)
  | inr t ↦ rw t (ap (λ x. (g, jp) ∷ x) (absent_ip ip rest (rw t at f)))
]

-- The pair of a host and the pair of its address are the same.
pub host_for-ip_for :
    (h : Text) (ip : ℕ) (l : Pairs)
    → Distinct l
    → ip_for h l ≡ some ip
    → (host_for ip l ≡ some h) × (without_ip ip l ≡ without_host h l)
host_for-ip_for h ip [] d f = absurd (cc)
host_for-ip_for h ip ((g, jp) ∷ rest) ((no_host, no_ip), d) f = elim (Bool-cases (text_eq g h)) [
  | inl s ↦
      let f' : some jp ≡ some ip = rw s at f in
      let e : jp ≡ ip = cc in
      let t : (jp == ip) ≡ true = ground arith in
      let same : g ≡ h = text_eq→≡ g h s in
      rw (t, s)
        (
          ap some same,
          absent_ip ip rest (ap (λ x. host_for x rest) (sym e) ∙ no_ip)
              ∙ sym (absent_host h rest (ap (λ x. ip_for x rest) (sym same) ∙ no_host)),
        )
  | inr s ↦
      let (here, gone) = host_for-ip_for h ip rest d (rw s at f) in
      elim (Bool-cases (jp == ip)) [
        | inl t ↦
            let e : jp ≡ ip = ground arith in
            let x : host_for ip rest ≡ none = ap (λ x. host_for x rest) (sym e) ∙ no_ip in
            absurd (cc)
        | inr t ↦ rw (t, s) (here, ap (λ x. (g, jp) ∷ x) gone)
      ]
]
  where
    absent_host : (h : Text) (l : Pairs) → ip_for h l ≡ none → without_host h l ≡ l
    absent_host h [] f = refl
    absent_host h ((g, jp) ∷ rest) f = elim (Bool-cases (text_eq g h)) [
      | inl t ↦ let f' : some jp ≡ none = rw t at f in absurd (cc)
      | inr t ↦ rw t (ap (λ x. (g, jp) ∷ x) (absent_host h rest (rw t at f)))
    ]

pub ip_for-host_for :
    (h : Text) (ip : ℕ) (l : Pairs) → Distinct l → host_for ip l ≡ some h → ip_for h l ≡ some ip
ip_for-host_for h ip [] d f = absurd (cc)
ip_for-host_for h ip ((g, jp) ∷ rest) ((no_host, no_ip), d) f = elim (Bool-cases (jp == ip)) [
  | inl t ↦
      let f' : some g ≡ some h = rw t at f in
      let e : jp ≡ ip = ground arith in
      let same : g ≡ h = cc in
      let s : text_eq g h ≡ true = (text_eq_iff g h).1 same in rw s (ap some e)
  | inr t ↦
      let here = ip_for-host_for h ip rest d (rw t at f) in
      elim (Bool-cases (text_eq g h)) [
        | inl s ↦
            let x : ip_for h rest ≡ none =
              ap (λ x. ip_for x rest) (sym (text_eq→≡ g h s)) ∙ no_host in
            absurd (cc)
        | inr s ↦ rw s here
      ]
]

ip_for-without_host :
    (h g : Text) (l : Pairs) → ip_for g l ≡ none → ip_for g (without_host h l) ≡ none
ip_for-without_host h g [] f = refl
ip_for-without_host h g ((k, jp) ∷ rest) f = ground (arith, ip_for-without_host h g rest)

host_for-without_host :
    (h : Text) (ip : ℕ) (l : Pairs) → host_for ip l ≡ none → host_for ip (without_host h l) ≡ none
host_for-without_host h ip [] f = refl
host_for-without_host h ip ((k, jp) ∷ rest) f = ground (arith, host_for-without_host h ip rest)

pub Distinct-without_host : (h : Text) (l : Pairs) → Distinct l → Distinct (without_host h l)
Distinct-without_host h [] d = tt
Distinct-without_host h ((g, jp) ∷ rest) ((no_host, no_ip), d) = elim (Bool-cases (text_eq g h)) [
  | inl s ↦ rw s (Distinct-without_host h rest d)
  | inr s ↦ rw s (
    (ip_for-without_host h g rest no_host, host_for-without_host h jp rest no_ip),
    Distinct-without_host h rest d,
  )
]

pub ip_for-without_host_self : (h : Text) (l : Pairs) → ip_for h (without_host h l) ≡ none
ip_for-without_host_self h [] = refl
ip_for-without_host_self h ((g, jp) ∷ rest) = elim (Bool-cases (text_eq g h)) [
  | inl s ↦ rw s (ip_for-without_host_self h rest)
  | inr s ↦ rw s (rw s (ip_for-without_host_self h rest))
]

pub host_for-without_ip_self : (ip : ℕ) (l : Pairs) → host_for ip (without_ip ip l) ≡ none
host_for-without_ip_self ip [] = refl
host_for-without_ip_self ip ((g, jp) ∷ rest) = elim (Bool-cases (jp == ip)) [
  | inl s ↦ rw s (host_for-without_ip_self ip rest)
  | inr s ↦ rw s (rw s (host_for-without_ip_self ip rest))
]

ip_for-snoc :
    (h g : Text) (ip : ℕ) (l : Pairs)
    → text_eq h g ≡ false
    → ip_for g l ≡ none
    → ip_for g (l ++ (h, ip) ∷ []) ≡ none
ip_for-snoc h g ip [] n f = rw n refl
ip_for-snoc h g ip ((k, jp) ∷ rest) n f = ground (arith, ip_for-snoc h g ip rest)

pub host_for-snoc :
    (h : Text) (ip jp : ℕ) (l : Pairs)
    → host_for jp l ≡ none
    → host_for jp (l ++ (h, ip) ∷ []) ≡ (if ip == jp then some h else none)
host_for-snoc h ip jp [] f = refl
host_for-snoc h ip jp ((k, kp) ∷ rest) f = ground (arith, host_for-snoc h ip jp rest)

-- A pair of a new host and a new address at the end.
pub Distinct-snoc :
    (h : Text) (ip : ℕ) (l : Pairs)
    → Distinct l
    → ip_for h l ≡ none
    → host_for ip l ≡ none
    → Distinct (l ++ (h, ip) ∷ [])
Distinct-snoc h ip [] d f g = ((refl, refl), tt)
Distinct-snoc h ip ((k, jp) ∷ rest) ((no_host, no_ip), d) f g =
    let f' : (text_eq k h ≡ false) × (ip_for h rest ≡ none) = split_host k jp (ip_for h rest) f in
    let s : text_eq h k ≡ false = apart k h f'.0 in
    let t : (ip == jp) ≡ false = ground arith in
    let g' : host_for ip rest ≡ none = ground arith in
    (
      (ip_for-snoc h k ip rest s no_host, host_for-snoc h ip jp rest no_ip ∙ rw t refl),
      Distinct-snoc h ip rest d f'.1 g',
    )
  where
    split_host :
        (k : Text) (jp : ℕ) (o : Option ℕ)
        → (if text_eq k h then some jp else o) ≡ none
        → (text_eq k h ≡ false) × (o ≡ none)
    split_host k jp o e = elim (Bool-cases (text_eq k h)) [
      | inl s ↦ let e' : some jp ≡ none = rw s at e in absurd (cc)
      | inr s ↦ (s, rw s at e)
    ]

    apart : (a b : Text) → text_eq a b ≡ false → text_eq b a ≡ false
    apart a b e = elim (Bool-cases (text_eq b a)) [
      | inl t ↦
          let same : b ≡ a = text_eq→≡ b a t in
          let t' : text_eq a b ≡ true = (text_eq_iff a b).1 (sym same) in absurd (cc)
      | inr f ↦ f
    ]

pub Distinct-trim : (n : ℕ) (l : Pairs) → Distinct l → Distinct (trim n l)
Distinct-trim n l d = elim (Bool-cases (ltb 0 n && ltb n (length l))) [
  | inl t ↦ rw t (Distinct-drop l d)
  | inr t ↦ rw t d
]
  where
    Distinct-drop : (l : Pairs) → Distinct l → Distinct (drop 1 l)
    Distinct-drop [] d = tt
    Distinct-drop ((h, ip) ∷ rest) (no_pair, d) = d

-- The last pair is not trimmed off.
pub host_for-trim :
    (n : ℕ) (h : Text) (ip : ℕ) (l : Pairs)
    → host_for ip l ≡ none
    → host_for ip (trim n (l ++ (h, ip) ∷ [])) ≡ some h
host_for-trim n h ip [] f =
    let t : (ltb 0 n && ltb n 1) ≡ false = ground arith in rw t (ground arith)
host_for-trim n h ip ((g, jp) ∷ rest) f =
    let last : (l : Pairs) → host_for ip l ≡ none → host_for ip (l ++ (h, ip) ∷ []) ≡ some h =
      λ l e. host_for-snoc h ip ip l e ∙ ground arith in
    elim (Bool-cases (ltb 0 n && ltb n (length ((g, jp) ∷ rest ++ (h, ip) ∷ [])))) [
      | inl t ↦ let f' : host_for ip rest ≡ none = ground arith in rw t (last rest f')
      | inr t ↦ rw t (last ((g, jp) ∷ rest) f)
    ]

-- The pairs after one was used.
abbrev pub touched : Text → ℕ → Pairs → Pairs
touched h ip l = without_host h l ++ (h, ip) ∷ []

pub Distinct-touched :
    (h : Text) (ip : ℕ) (l : Pairs) → Distinct l → ip_for h l ≡ some ip → Distinct (touched h ip l)
Distinct-touched h ip l d f =
    let (here, gone) = host_for-ip_for h ip l d f in
    Distinct-snoc h ip (without_host h l) (Distinct-without_host h l d)
      (ip_for-without_host_self h l) (ap (host_for ip) (sym gone) ∙ host_for-without_ip_self ip l)
