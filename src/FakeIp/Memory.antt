-- ===== src/FakeIp/Memory.antt =====
-- component/fakeip/memory.go: the store of fake addresses in memory, over two caches. The caches are made
-- with a size only: they have no ages, and the time of a call, 0 here, has no effect.
pub mod Pairs
pub mod Mirror
pub mod Calls
pub mod Changes
pub mod Within
pub mod Lookup
pub mod History
mod Tests
use go_warp_scanner.Common.Keys.{ℕ_keys, text_keys}
use go_warp_scanner.Common.Text.{Text}
use go_warp_scanner.LruCache
use go_warp_scanner.LruCache.{LruCache}
use go_warp_scanner.FakeIp.{Store}
use go_warp_scanner.Common.{ℕ, Bool, true, false, Option, none, some}

-- `memoryStore`, with an address as its number.
pub record MemoryStore : Type 0 where
  pub cache_ip : LruCache Text ℕ
  pub cache_host : LruCache ℕ Text

-- `GetByHost`.
unfoldable pub get_by_host : Text → MemoryStore → MemoryStore × Option ℕ
unfolding LruCache.get
get_by_host host m =
    let (c, found) = LruCache.get text_keys 0 host m.cache_ip in
    elim found [
      | none ↦ (record m { cache_ip = c }, none)
      | some ip ↦
          (record { cache_ip = c; cache_host = (LruCache.get ℕ_keys 0 ip m.cache_host).0 }, some ip)
    ]

-- `PutByHost`.
unfoldable pub put_by_host : Text → ℕ → MemoryStore → MemoryStore
unfolding LruCache.set_key
put_by_host host ip m = record m { cache_ip = LruCache.set_key text_keys 0 host ip m.cache_ip }

-- `GetByIP`.
unfoldable pub get_by_ip : ℕ → MemoryStore → MemoryStore × Option Text
unfolding LruCache.get
get_by_ip ip m =
    let (c, found) = LruCache.get ℕ_keys 0 ip m.cache_host in
    elim found [
      | none ↦ (record m { cache_host = c }, none)
      | some host ↦ (
        record { cache_ip = (LruCache.get text_keys 0 host m.cache_ip).0; cache_host = c },
        some host,
      )
    ]

-- `PutByIP`.
unfoldable pub put_by_ip : ℕ → Text → MemoryStore → MemoryStore
unfolding LruCache.set_key
put_by_ip ip host m = record m { cache_host = LruCache.set_key ℕ_keys 0 ip host m.cache_host }

-- `DelByIP`.
unfoldable pub del_by_ip : ℕ → MemoryStore → MemoryStore
unfolding LruCache.get LruCache.delete
del_by_ip ip m =
    let (c, found) = LruCache.get ℕ_keys 0 ip m.cache_host in
    record {
      cache_ip = elim found [
        | none ↦ m.cache_ip
        | some host ↦ LruCache.delete text_keys host m.cache_ip
      ];
      cache_host = LruCache.delete ℕ_keys ip c;
    }

-- `Exist`.
unfoldable pub exist : ℕ → MemoryStore → Bool
unfolding LruCache.exist
exist ip m = LruCache.exist ℕ_keys ip m.cache_host

-- `FlushFakeIP`.
unfoldable pub flush_fake_ip : MemoryStore → MemoryStore × Bool
unfolding LruCache.clear
flush_fake_ip m = (
  record { cache_ip = LruCache.clear m.cache_ip; cache_host = LruCache.clear m.cache_host },
  true,
)

-- `newMemoryStore`.
abbrev pub new_memory_store : ℕ → MemoryStore
new_memory_store size = record {
  cache_ip = LruCache.new 0 size false false;
  cache_host = LruCache.new 0 size false false;
}

-- The store as an instance of the interface.
abbrev pub memory : Store
memory = record {
  State = MemoryStore;
  get_by_host = get_by_host;
  put_by_host = put_by_host;
  get_by_ip = get_by_ip;
  put_by_ip = put_by_ip;
  del_by_ip = del_by_ip;
  exist = exist;
  flush_fake_ip = flush_fake_ip;
}
