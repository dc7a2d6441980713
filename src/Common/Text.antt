-- ===== src/Common/Text.antt =====
-- Go strings as lists of bytes, and the functions of package `strings` that the source calls.
use Prim.Native.Char.{code}
use Prim.Native.String.{String}
use go_warp_scanner.Common.{
  ℕ, ◌+◌, ◌≡◌, refl, ap, ◌∙◌, subst, ◌↔◌, inl, inr, Bool, true, false, ◌&&◌, ◌||◌, List, [], ◌∷◌,
  ◌++◌, map, arith, leb, ◌==◌, if◌then◌else◌, Bool-cases,
}

abbrev pub Text : Type 0
Text = List ℕ

-- The bytes of an ASCII literal.
abbrev pub codes : String → Text
codes String.[] = []
codes (String.◌∷◌ c s) = code c ∷ codes s

-- `==` on strings.
abbrev pub text_eq : Text → Text → Bool
text_eq [] [] = true
text_eq [] (y ∷ ys) = false
text_eq (x ∷ xs) [] = false
text_eq (x ∷ xs) (y ∷ ys) = (x == y) && text_eq xs ys

pub text_eq_refl : (s : Text) → text_eq s s ≡ true
text_eq_refl [] = refl
text_eq_refl (x ∷ xs) = ground (arith, text_eq_refl xs)

pub text_eq→≡ : (s t : Text) → text_eq s t ≡ true → s ≡ t
text_eq→≡ [] [] h = refl
text_eq→≡ [] (y ∷ ys) h = cc
text_eq→≡ (x ∷ xs) [] h = cc
text_eq→≡ (x ∷ xs) (y ∷ ys) h = ground (arith, text_eq→≡ xs ys)

pub text_eq_iff : (s t : Text) → (text_eq s t ≡ true) ↔ (s ≡ t)
text_eq_iff s t = (text_eq→≡ s t, λ e. subst (λ u. text_eq s u ≡ true) e (text_eq_refl s))

-- `strings.HasPrefix`.
unfoldable pub has_prefix : Text → Text → Bool
has_prefix s [] = true
has_prefix [] (y ∷ ys) = false
has_prefix (x ∷ xs) (y ∷ ys) = (x == y) && has_prefix xs ys

-- `strings.Contains`.
unfoldable pub contains_text : Text → Text → Bool
unfolding has_prefix
contains_text [] w = has_prefix [] w
contains_text (x ∷ xs) w = has_prefix (x ∷ xs) w || contains_text xs w

pub has_prefix-append : (w t : Text) → has_prefix (w ++ t) w ≡ true
unfolding has_prefix
has_prefix-append [] t = has_prefix-nil t
  where
    has_prefix-nil : (t : Text) → has_prefix t [] ≡ true
    has_prefix-nil [] = refl
    has_prefix-nil (x ∷ xs) = refl
has_prefix-append (x ∷ w) t = ground (arith, has_prefix-append w t)

pub has_prefix→append : (s w : Text) → has_prefix s w ≡ true → (t : Text) × (s ≡ w ++ t)
unfolding has_prefix
has_prefix→append s [] h = (s, refl)
has_prefix→append [] (y ∷ ys) h = absurd (cc)
has_prefix→append (x ∷ xs) (y ∷ ys) h = elim (Bool-cases (x == y)) [
  | inl e ↦ let (t, p) = has_prefix→append xs ys (rw e at h) in (t, ground (arith, p))
  | inr e ↦ absurd (ground arith)
]

-- A text contains `w` exactly if it is `w` with something before and behind.
pub contains_text→append :
    (s w : Text) → contains_text s w ≡ true → (p t : Text) × (s ≡ p ++ (w ++ t))
unfolding contains_text
contains_text→append [] w h = let (t, e) = has_prefix→append [] w h in ([], t, e)
contains_text→append (x ∷ xs) w h = elim (Bool-cases (has_prefix (x ∷ xs) w)) [
  | inl e ↦ let (t, q) = has_prefix→append (x ∷ xs) w e in ([], t, q)
  | inr e ↦ let (p, t, q) = contains_text→append xs w (rw e at h) in (x ∷ p, t, ap (λ u. x ∷ u) q)
]

pub contains_text-append : (p w t : Text) → contains_text (p ++ (w ++ t)) w ≡ true
unfolding contains_text
contains_text-append [] [] [] = refl
contains_text-append [] [] (x ∷ t) = refl
contains_text-append [] (y ∷ w) t = rw (has_prefix-append (y ∷ w) t)
contains_text-append (x ∷ p) w t = ground (arith, contains_text-append p w t)

-- `strings.Split` at one byte: never empty.
cons_head : ℕ → List Text → List Text
cons_head c [] = (c ∷ []) ∷ []
cons_head c (p ∷ ps) = (c ∷ p) ∷ ps

unfoldable pub split : ℕ → Text → List Text
unfolding cons_head
split sep [] = [] ∷ []
split sep (c ∷ s) = let rest = split sep s in if c == sep then [] ∷ rest else cons_head c rest

-- `strings.Join` with a separator of one byte.
unfoldable pub join : ℕ → List Text → Text
join sep [] = []
join sep (p ∷ []) = p
join sep (p ∷ q ∷ ps) = p ++ (sep ∷ join sep (q ∷ ps))

split-cons : (sep : ℕ) (s : Text) → (p : Text) × (ps : List Text) × (split sep s ≡ p ∷ ps)
unfolding split
split-cons sep [] = ([], [], refl)
split-cons sep (c ∷ s) = elim (Bool-cases (c == sep)) [
  | inl e ↦ ([], split sep s, rw e)
  | inr e ↦ let (p, ps, q) = split-cons sep s in (c ∷ p, ps, rw (e, q))
]

join-cons_head :
    (sep c : ℕ) (p : Text) (ps : List Text)
    → join sep (cons_head c (p ∷ ps)) ≡ c ∷ join sep (p ∷ ps)
unfolding join cons_head
join-cons_head sep c p [] = refl
join-cons_head sep c p (q ∷ ps) = refl

-- Joining the parts gives the text back.
pub join-split : (sep : ℕ) (s : Text) → join sep (split sep s) ≡ s
unfolding split join
join-split sep [] = refl
join-split sep (c ∷ s) =
    let (p, ps, q) = split-cons sep s in
    let ih : join sep (p ∷ ps) ≡ s = subst (λ u. join sep u ≡ s) q (join-split sep s) in
    elim (Bool-cases (c == sep)) [
      | inl e ↦ rw (e, q) (ground (arith, ih))
      | inr e ↦ rw (e, q) (join-cons_head sep c p ps ∙ ap (λ u. c ∷ u) ih)
    ]

-- `strings.ToLower` on ASCII.
unfoldable pub lower_byte : ℕ → ℕ
lower_byte c = if leb 65 c && leb c 90 then c + 32 else c

unfoldable pub to_lower : Text → Text
to_lower s = map lower_byte s
