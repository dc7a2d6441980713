-- ===== src/LruCache/Tests.antt =====
-- The theorems on the cache at a cache of two entries of numbers.
use go_warp_scanner.Common.Keys.{ℕ_keys}
use go_warp_scanner.LruCache.{
  Entry, Element, LruCache, new, find, remove, put_key, delete_element, delete_front, evict,
  set_entry, maybe_delete_oldest, set_with_expire, set_key, get_element, get_entry, get, refresh,
  clear,
}
use go_warp_scanner.LruCache.Elements.{id_of}
use go_warp_scanner.LruCache.Ideal.{view}
use go_warp_scanner.LruCache.Invariant.{IsCache}
use go_warp_scanner.LruCache.History.{
  Call, set_call, get_call, run, ideal_run, run-ideal_run, get-run-set_key,
}
use go_warp_scanner.LruCache.Clear.{get-set_key-clear}
use go_warp_scanner.Common.{ℕ, ◌≡◌, refl, inr, false, none, some, List, [], ◌∷◌, arith}

abbrev two : LruCache ℕ ℕ
two = new 0 2 false false

abbrev calls : List (ℕ × Call ℕ ℕ)
calls =
    (0, set_call 1 10)
    ∷ (0, set_call 2 20)
    ∷ (1, get_call 1)
    ∷ (2, set_call 3 30)
    ∷ (2, get_call 2)
    ∷ (3, get_call 1)
    ∷ []

-- The key 2 is the one that makes room for 3.
calls_outputs :
    (run ℕ_keys calls two).1
    ≡ none
      ∷ none
      ∷ some (record { key = 1; value = 10; expires = 0 })
      ∷ none
      ∷ none
      ∷ some (record { key = 1; value = 10; expires = 0 })
      ∷ []
unfolding set_key set_with_expire set_entry maybe_delete_oldest evict delete_front delete_element
    get_entry get_element refresh find remove
calls_outputs = refl

run-ideal_run_example :
    IsCache ℕ_keys (run ℕ_keys calls two).0
    × (view (run ℕ_keys calls two).0 ≡ (ideal_run ℕ_keys calls (view two)).0)
    × ((run ℕ_keys calls two).1 ≡ (ideal_run ℕ_keys calls (view two)).1)
run-ideal_run_example = run-ideal_run ℕ_keys 0 2 false false calls

two-IsCache : IsCache ℕ_keys two
unfolding id_of
two-IsCache = (tt, λ k. refl)

get-run-set_key_example :
    (get ℕ_keys 9 7 (run ℕ_keys ((5, set_call 8 80) ∷ []) (set_key ℕ_keys 3 7 70 two)).0).1
    ≡ some 70
get-run-set_key_example =
    get-run-set_key ℕ_keys 3 9 7 70 ((5, set_call 8 80) ∷ []) two two-IsCache refl refl
      (inr (omega arith))

abbrev first_entry : Entry ℕ ℕ
first_entry = record { key = 1; value = 10; expires = 0 }

abbrev second : Element ℕ ℕ
second = (1, record { key = 2; value = 20; expires = 0 })

abbrev full : LruCache ℕ ℕ
full = record two {
  lru = (0, first_entry) ∷ second ∷ [];
  cache = put_key ℕ_keys 2 1 (put_key ℕ_keys 1 0 (λ k. none));
  next = 2;
}

get-set_key-clear_example : (get ℕ_keys 9 1 (set_key ℕ_keys 8 1 11 (clear full))).1 ≡ none
get-set_key-clear_example =
    get-set_key-clear ℕ_keys 8 9 0 first_entry 11 (second ∷ []) full refl (omega arith)
      (omega arith) refl
