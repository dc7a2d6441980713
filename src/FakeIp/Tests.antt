-- ===== src/FakeIp/Tests.antt =====
-- A store of two maps, and the theorems on the pool at concrete values.
use go_warp_scanner.Common.Text.{Text, text_eq}
use go_warp_scanner.FakeIp.{Store, Pool, Prefix, un_masked, masked_addr, new_pool}
use go_warp_scanner.FakeIp.Laws.{IsStore, IsPool}
use go_warp_scanner.FakeIp.Laws.Lookup.{new_pool-IsPool}
use go_warp_scanner.Common.{
  ℕ, ◌≡◌, refl, Bool, true, false, Option, none, some, ◌==◌, if◌then◌else◌,
}

abbrev Maps : Type 0
Maps = (ℕ → Option Text) × (Text → Option ℕ)

abbrev without : Option Text → (Text → Option ℕ) → Text → Option ℕ
without none ips j = ips j
without (some h) ips j = if text_eq h j then none else ips j

abbrev is_some : Option Text → Bool
is_some none = false
is_some (some h) = true

abbrev maps : Store
maps = record {
  State = Maps;
  get_by_host = λ h s. (s, s.1 h);
  put_by_host = λ h ip s. (s.0, λ j. if text_eq h j then some ip else s.1 j);
  get_by_ip = λ ip s. (s, s.0 ip);
  put_by_ip = λ ip h s. (λ jp. if ip == jp then some h else s.0 jp, s.1);
  del_by_ip = λ ip s. (λ jp. if ip == jp then none else s.0 jp, without (s.0 ip) (s.1));
  exist = λ ip s. is_some (s.0 ip);
  flush_fake_ip = λ s. ((λ ip. none, λ h. none), true);
}

is_some-false : (o : Option Text) → is_some o ≡ false → o ≡ none
is_some-false none e = refl
is_some-false (some h) e = absurd (cc)

abbrev maps-IsStore : IsStore maps
maps-IsStore = record {
  host_of = λ s ip. s.0 ip;
  ip_of = λ s h. s.1 h;
  get_host = λ h s. refl;
  get_host_hosts = λ h s ip. refl;
  get_host_ips = λ h s j. refl;
  get_ip = λ ip s. refl;
  put_host_hosts = λ h ip s jp. refl;
  put_host_ips = λ h ip s j. refl;
  put_ip_hosts = λ ip h s jp. refl;
  put_ip_ips = λ ip h s j. refl;
  del_hosts = λ ip s jp. refl;
  del_ips_none = λ ip s j e. rw e;
  del_ips_some = λ ip s h j e. rw e;
  exist_none = λ ip s e. is_some-false (s.0 ip) e;
}

abbrev empty : Maps
empty = (λ ip. none, λ h. none)

-- `198.18.0.0/29`, as bits of an address of 128 bits.
abbrev small : Prefix
small = record { width = 32; bits = 29; addr = 3323068416 }

abbrev small_pool : Pool Maps
small_pool = record {
  gateway = 3323068417;
  first = 3323068420;
  last = 3323068423;
  offset = 3323068419;
  cycle = false;
  store = empty;
}

small_runs : new_pool small empty ≡ some small_pool
unfolding new_pool un_masked masked_addr
small_runs = refl

small_pool-IsPool : IsPool maps maps-IsStore small_pool
small_pool-IsPool =
    new_pool-IsPool maps maps-IsStore small empty small_pool (λ ip. refl) (λ h. refl) small_runs
