-- ===== src/FakeIp/Memory/Within.antt =====
-- component/fakeip: addresses in the range of a pool.
use go_warp_scanner.Common.Text.{Text, text_eq}
use go_warp_scanner.LruCache.Ideal.{trim}
use go_warp_scanner.FakeIp.Memory.Pairs.{Pairs, ip_for, without_host, without_ip}
use go_warp_scanner.Common.{
  ℕ, ◌≤◌, ◌<◌, ◌≡◌, subst, inl, inr, ◌&&◌, some, [], ◌∷◌, ◌++◌, ltb, ◌==◌, Bool-cases, length, drop,
}

-- The addresses of some pairs lie in a range.
abbrev pub Within : ℕ → ℕ → Pairs → Type 0
Within first last [] = Unit
Within first last ((h, ip) ∷ rest) = ((first ≤ ip) × (ip < last)) × Within first last rest

pub Within-ip_for :
    (first last : ℕ) (h : Text) (ip : ℕ) (l : Pairs)
    → Within first last l
    → ip_for h l ≡ some ip
    → (first ≤ ip) × (ip < last)
Within-ip_for first last h ip [] w f = absurd (cc)
Within-ip_for first last h ip ((g, jp) ∷ rest) (b, w) f = elim (Bool-cases (text_eq g h)) [
  | inl s ↦
      let f' : some jp ≡ some ip = rw s at f in
      let e : jp ≡ ip = cc in subst (λ x. (first ≤ x) × (x < last)) e b
  | inr s ↦ Within-ip_for first last h ip rest w (rw s at f)
]

pub Within-without_host :
    (first last : ℕ) (h : Text) (l : Pairs)
    → Within first last l
    → Within first last (without_host h l)
Within-without_host first last h [] w = tt
Within-without_host first last h ((g, jp) ∷ rest) (b, w) = elim (Bool-cases (text_eq g h)) [
  | inl s ↦ rw s (Within-without_host first last h rest w)
  | inr s ↦ rw s (b, Within-without_host first last h rest w)
]

pub Within-without_ip :
    (first last ip : ℕ) (l : Pairs) → Within first last l → Within first last (without_ip ip l)
Within-without_ip first last ip [] w = tt
Within-without_ip first last ip ((g, jp) ∷ rest) (b, w) = elim (Bool-cases (jp == ip)) [
  | inl s ↦ rw s (Within-without_ip first last ip rest w)
  | inr s ↦ rw s (b, Within-without_ip first last ip rest w)
]

pub Within-snoc :
    (first last : ℕ) (h : Text) (ip : ℕ) (l : Pairs)
    → Within first last l
    → first ≤ ip
    → ip < last
    → Within first last (l ++ (h, ip) ∷ [])
Within-snoc first last h ip [] w lo hi = ((lo, hi), tt)
Within-snoc first last h ip (p ∷ rest) (b, w) lo hi = (b, Within-snoc first last h ip rest w lo hi)

pub Within-trim :
    (first last n : ℕ) (l : Pairs) → Within first last l → Within first last (trim n l)
Within-trim first last n l w = elim (Bool-cases (ltb 0 n && ltb n (length l))) [
  | inl t ↦ rw t (Within-drop l w)
  | inr t ↦ rw t w
]
  where
    Within-drop : (l : Pairs) → Within first last l → Within first last (drop 1 l)
    Within-drop [] w = tt
    Within-drop (p ∷ rest) (b, w) = w
