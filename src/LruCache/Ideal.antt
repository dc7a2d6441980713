-- ===== src/LruCache/Ideal.antt =====
-- What the cache of common/cache/lrucache.go promises: a list of entries, one to a key, the least recent
-- first.
use go_warp_scanner.Common.Keys.{KeyEq}
use go_warp_scanner.LruCache.{Entry, Element, LruCache}
use go_warp_scanner.Common.{
  ℕ, ◌+◌, Bool, not, ◌&&◌, Option, none, some, List, [], ◌∷◌, ◌++◌, ltb, leb, if◌then◌else◌, length,
  drop,
}

-- The settings of a cache and its entries.
pub record Ideal {ℓ} (K V : Type ℓ) : Type ℓ where
  pub max_age : ℕ
  pub max_size : ℕ
  pub update_age_on_get : Bool
  pub stale_return : Bool
  pub items : List (Entry K V)

-- A list with the bound on its length: one too many makes the first one go.
abbrev pub trim {ℓ} : {A : Type ℓ} → ℕ → List A → List A
trim max_size l = if ltb 0 max_size && ltb max_size (length l) then drop 1 l else l

module _ {ℓ} {K V : Type ℓ} where
  abbrev pub entries : List (Element K V) → List (Entry K V)
  entries [] = []
  entries ((i, e) ∷ rest) = e ∷ entries rest

  -- A cache without the identities of its elements and without its map.
  abbrev pub view : LruCache K V → Ideal K V
  view c = record {
    max_age = c.max_age;
    max_size = c.max_size;
    update_age_on_get = c.update_age_on_get;
    stale_return = c.stale_return;
    items = entries c.lru;
  }

  abbrev pub aging : Ideal K V → Bool
  aging c = not c.stale_return && ltb 0 c.max_age

  -- The entries without those at the front that have expired.
  abbrev pub drop_expired : ℕ → List (Entry K V) → List (Entry K V)
  drop_expired now [] = []
  drop_expired now (e ∷ rest) =
      let later = drop_expired now rest in if leb e.expires now then later else e ∷ rest

  abbrev pub expire : ℕ → Ideal K V → Ideal K V
  expire now c = if aging c then record c { items = drop_expired now c.items } else c

module _ {ℓ} {K V : Type ℓ} (keys : KeyEq K) where
  open keys use {same}

  abbrev pub entry_of : K → List (Entry K V) → Option (Entry K V)
  entry_of k [] = none
  entry_of k (e ∷ rest) = if same e.key k then some e else entry_of k rest

  abbrev pub without : K → List (Entry K V) → List (Entry K V)
  without k [] = []
  without k (e ∷ rest) = let others = without k rest in if same e.key k then others else e ∷ others

  abbrev pub ideal_set : ℕ → K → V → ℕ → Ideal K V → Ideal K V
  ideal_set now k v expires c = expire now (record c {
    items = elim (entry_of k c.items) [
      | none ↦ trim c.max_size (c.items ++ (record { key = k; value = v; expires = expires }) ∷ [])
      | some e ↦ without k c.items ++ (record e { value = v; expires = expires }) ∷ []
    ];
  })

  abbrev pub ideal_refresh : ℕ → Ideal K V → Entry K V → Entry K V
  ideal_refresh now c e =
      if ltb 0 c.max_age && c.update_age_on_get then record e { expires = now + c.max_age } else e

  abbrev pub ideal_get : ℕ → K → Ideal K V → Ideal K V × Option (Entry K V)
  ideal_get now k c = elim (entry_of k c.items) [
    | none ↦ (c, none)
    | some e ↦
        if aging c && leb e.expires now
        then (expire now (record c { items = without k c.items }), none)
        else (
          record c { items = without k c.items ++ ideal_refresh now c e ∷ [] },
          some (ideal_refresh now c e),
        )
  ]

  abbrev pub ideal_delete : K → Ideal K V → Ideal K V
  ideal_delete k c = record c { items = without k c.items }
