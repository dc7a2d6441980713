-- ===== src/LruCache.antt =====
-- common/cache/lrucache.go: a cache that drops the least recently used entry. The mutex makes each method
-- one step. The callback of `WithEvict` is left out.
pub mod Elements
pub mod Ideal
pub mod Invariant
pub mod Calls
pub mod Recency
pub mod Bounds
pub mod History
pub mod Clear
mod Tests
use go_warp_scanner.Common.Keys.{KeyEq}
use go_warp_scanner.Common.{
  ℕ, ◌+◌, Bool, true, false, not, ◌&&◌, Option, none, some, List, [], ◌∷◌, ◌++◌, ltb, leb, ◌==◌,
  if◌then◌else◌, length,
}

pub record Entry {ℓ} (K V : Type ℓ) : Type ℓ where
  pub key : K
  pub value : V
  pub expires : ℕ  -- seconds

-- An element of the list `lru`: its identity, as the pointer to it, and its entry.
abbrev pub Element {ℓ} : Type ℓ → Type ℓ → Type ℓ
Element K V = ℕ × Entry K V

-- `LruCache`; `next` is an identity that no element has had. The front of `lru` is the least recent.
pub record LruCache {ℓ} (K V : Type ℓ) : Type ℓ where
  pub max_age : ℕ
  pub max_size : ℕ
  pub update_age_on_get : Bool
  pub stale_return : Bool
  pub cache : K → Option ℕ
  pub lru : List (Element K V)
  pub next : ℕ

is_found : Option ℕ → Bool
is_found none = false
is_found (some i) = true

module _ {ℓ} {K V : Type ℓ} where
  -- `New` with its options.
  abbrev pub new : (max_age max_size : ℕ) → (update_age_on_get stale_return : Bool) → LruCache K V
  new max_age max_size update_age_on_get stale_return = record {
    max_age = max_age;
    max_size = max_size;
    update_age_on_get = update_age_on_get;
    stale_return = stale_return;
    cache = λ k. none;
    lru = [];
    next = 0;
  }

  -- The entry of an element of the list.
  unfoldable pub find : ℕ → List (Element K V) → Option (Entry K V)
  find i [] = none
  find i ((j, e) ∷ rest) = if i == j then some e else find i rest

  -- `list.Remove`.
  unfoldable pub remove : ℕ → List (Element K V) → List (Element K V)
  remove i [] = []
  remove i ((j, e) ∷ rest) =
      let others = remove i rest in if i == j then others else (j, e) ∷ others

  -- `list.MoveToBack` with a change of the entry.
  unfoldable pub move_to_back :
      ℕ → (Entry K V → Entry K V) → List (Element K V) → List (Element K V)
  unfolding find remove
  move_to_back i change lru = elim (find i lru) [
    | none ↦ lru
    | some e ↦ remove i lru ++ (i, change e) ∷ []
  ]

  -- Whether the entries have an age that counts.
  abbrev pub ages : LruCache K V → Bool
  ages c = not c.stale_return && ltb 0 c.max_age

  -- `expires` of `Set`.
  abbrev pub expires_at : ℕ → LruCache K V → ℕ
  expires_at now c = if ltb 0 c.max_age then now + c.max_age else 0

module _ {ℓ} {K : Type ℓ} (keys : KeyEq K) where
  open keys use {same}

  -- `cache[k] = le` and `delete(cache, k)`.
  abbrev pub put_key : K → ℕ → (K → Option ℕ) → K → Option ℕ
  put_key k i cache j = if same k j then some i else cache j

  abbrev pub delete_key : K → (K → Option ℕ) → K → Option ℕ
  delete_key k cache j = if same k j then none else cache j

module _ {ℓ} {K V : Type ℓ} (keys : KeyEq K) where
  unfoldable pub delete_element : Element K V → LruCache K V → LruCache K V
  delete_element (i, e) c = record c { lru = remove i c.lru; cache = delete_key keys e.key c.cache }

  -- The loop of `maybeDeleteOldest`, over the elements that are still in the list.
  unfoldable pub delete_oldest : ℕ → List (Element K V) → LruCache K V → LruCache K V
  unfolding delete_element
  delete_oldest now [] c = c
  delete_oldest now ((i, e) ∷ rest) c =
      let later = delete_oldest now rest (delete_element (i, e) c) in
      if leb e.expires now then later else c

  unfoldable pub maybe_delete_oldest : ℕ → LruCache K V → LruCache K V
  unfolding delete_oldest
  maybe_delete_oldest now c = if ages c then delete_oldest now c.lru c else c

  delete_front : List (Element K V) → LruCache K V → LruCache K V
  delete_front [] c = c
  delete_front (front ∷ rest) c = delete_element front c

  -- The eviction of `SetWithExpire`.
  unfoldable pub evict : LruCache K V → LruCache K V
  unfolding delete_front delete_element
  evict c = if ltb 0 c.max_size && ltb c.max_size (length c.lru) then delete_front c.lru c else c

  -- The two branches of `SetWithExpire`.
  unfoldable pub set_entry : K → V → ℕ → LruCache K V → LruCache K V
  unfolding move_to_back evict
  set_entry k v expires c = elim (c.cache k) [
    | some i ↦ record c {
      lru = move_to_back i (λ e. record e { value = v; expires = expires }) c.lru;
    }
    | none ↦ evict (record c {
      lru = c.lru ++ (c.next, record { key = k; value = v; expires = expires }) ∷ [];
      cache = put_key keys k c.next c.cache;
      next = c.next + 1;
    })
  ]

  unfoldable pub set_with_expire : ℕ → K → V → ℕ → LruCache K V → LruCache K V
  unfolding set_entry maybe_delete_oldest
  set_with_expire now k v expires c = maybe_delete_oldest now (set_entry k v expires c)

  -- `Set`.
  unfoldable pub set_key : ℕ → K → V → LruCache K V → LruCache K V
  unfolding set_with_expire
  set_key now k v c = set_with_expire now k v (expires_at now c) c

  refresh : ℕ → LruCache K V → Entry K V → Entry K V
  refresh now c e =
      if ltb 0 c.max_age && c.update_age_on_get then record e { expires = now + c.max_age } else e

  -- The rest of `get`, on the element found.
  get_element : ℕ → ℕ → Entry K V → LruCache K V → LruCache K V × Option (Entry K V)
  unfolding refresh delete_element maybe_delete_oldest move_to_back
  get_element now i e c =
      if ages c && leb e.expires now
      then (maybe_delete_oldest now (delete_element (i, e) c), none)
      else (record c { lru = move_to_back i (refresh now c) c.lru }, some (refresh now c e))

  -- The method `get`. An element of the map stands in the list: the inner `none` does not occur.
  unfoldable pub get_entry : ℕ → K → LruCache K V → LruCache K V × Option (Entry K V)
  unfolding get_element find
  get_entry now k c = elim (c.cache k) [
    | none ↦ (c, none)
    | some i ↦ elim (find i c.lru) [ none ↦ (c, none) | some e ↦ get_element now i e c ]
  ]

  unfoldable pub value_of : Option (Entry K V) → Option V
  value_of none = none
  value_of (some e) = some e.value

  -- `Get`.
  unfoldable pub get : ℕ → K → LruCache K V → LruCache K V × Option V
  unfolding get_entry value_of
  get now k c = let (c', found) = get_entry now k c in (c', value_of found)

  value_and_expires : Option (Entry K V) → Option (V × ℕ)
  value_and_expires none = none
  value_and_expires (some e) = some (e.value, e.expires)

  -- `GetWithExpire`.
  get_with_expire : ℕ → K → LruCache K V → LruCache K V × Option (V × ℕ)
  unfolding get_entry value_and_expires
  get_with_expire now k c = let (c', found) = get_entry now k c in (c', value_and_expires found)

  -- `Exist`.
  unfoldable pub exist : K → LruCache K V → Bool
  unfolding is_found
  exist k c = is_found (c.cache k)

  -- `Delete`.
  unfoldable pub delete : K → LruCache K V → LruCache K V
  unfolding delete_element find
  delete k c = elim (c.cache k) [
    | none ↦ c
    | some i ↦ elim (find i c.lru) [ none ↦ c | some e ↦ delete_element (i, e) c ]
  ]

-- `Clear`: a new map; the list stays.
unfoldable pub clear {ℓ} : {K V : Type ℓ} → LruCache K V → LruCache K V
clear c = record c { cache = λ k. none }
