-- ===== src/Dns.antt =====
-- src/net-modules/dns.c: the cache of names. `resolve` is in the child Resolver; allocation
-- never fails here.
pub mod Resolver
pub mod Slots
pub mod Cached
pub mod Ring
use mathlib.Core.Option
use freenote_probe.Base.{
  ℕ, suc, ◌+◌, ◌%◌, Bool, true, false, ◌&&◌, Option, none, some, List, [], ◌∷◌, map, if◌then◌else◌,
  get_elem?, set,
}
use freenote_probe.CString.{Bytes, streq}
use freenote_probe.Task.Types.{inaddr_none}
use freenote_probe.Clock.{Timeval, time_difference}

-- A cache entry; `none` is a null name.
pub record DnsCentry : Type 0 where
  pub name : Option Bytes
  pub addr : ℕ

abbrev pub max_dns_cache_size : ℕ
max_dns_cache_size = 32

-- The array `dns_cache` and the static counter of `add_cache`, an `unsigned char`.
pub record DnsCache : Type 0 where
  pub entries : List DnsCentry
  pub index : ℕ

unfoldable pub cacheinit : DnsCentry → DnsCentry
cacheinit i = record { name = none; addr = inaddr_none }

unfoldable pub freecache : DnsCentry → DnsCentry
freecache i = record i { name = none; addr = inaddr_none }

unfoldable pub cache_each_do : (DnsCentry → DnsCentry) → DnsCache → DnsCache
cache_each_do run c = record c { entries = map run c.entries }

unfoldable pub dns_init : DnsCache → DnsCache
unfolding cache_each_do
dns_init c = cache_each_do cacheinit c

unfoldable pub dns_cache_flush : DnsCache → DnsCache
unfolding cache_each_do
dns_cache_flush c = cache_each_do freecache c

unfoldable pub same_name : DnsCentry → Bytes → Bool
same_name i fname = elim i.name [ none ↦ false | some n ↦ streq fname n ]

abbrev pub named : DnsCentry → Bool
named i = elim i.name [ none ↦ false | some n ↦ true ]

-- The first index whose entry has a name and passes the test, `none` for -1.
unfoldable pub cache_itest : (DnsCentry → Bytes → Bool) → Bytes → List DnsCentry → Option ℕ
cache_itest test wanted [] = none
cache_itest test wanted (i ∷ rest) =
    if named i && test i wanted then some 0 else Option.map suc (cache_itest test wanted rest)

unfoldable pub is_cached : List DnsCentry → Bytes → Option ℕ
unfolding cache_itest
is_cached entries name = cache_itest same_name name entries

-- The counter wraps at 256.
unfoldable pub add_cache : DnsCache → Bytes → ℕ → DnsCache
add_cache c name addr = record {
  entries = set c.entries (c.index % max_dns_cache_size) (record { name = some name; addr = addr });
  index = (c.index + 1) % 256;
}

-- An address and the time that is stored through the pointer `time`, `none` where it is null.
pub record Found : Type 0 where
  pub addr : ℕ
  pub time : Option Timeval

-- Reading slot `n` of the cache, which is within the array wherever `is_cached` found it.
abbrev pub addr_of : List DnsCentry → ℕ → Option ℕ
addr_of entries n = Option.map (λ (e : DnsCentry). e.addr) (get_elem? entries n)

module _ (resolve : Bytes → Option Bytes → Option Timeval → Found) where
  -- What follows the search of the cache. `begun` is what `*time` holds by then.
  unfoldable pub answer :
      DnsCache
      → Bytes
      → Option Bytes
      → Option Timeval
      → Timeval
      → Option ℕ
      → Option (DnsCache × Found)
  answer c name ns begun now none =
      let found = resolve name ns begun in some (add_cache c name found.addr, found)
  answer c name ns begun now (some n) =
      Option.map
        (λ a.
          (c, record { addr = a; time = Option.map (λ began. time_difference now began) begun }))
        (addr_of c.entries n)

  -- `start` and `now` are the two readings of the clock, and `resolve` is asked on a miss only. The
  -- result is `none` if the slot that was found lies outside the array.
  unfoldable pub resolve_cached :
      DnsCache
      → Bytes
      → Option Bytes
      → Option Timeval
      → Timeval
      → Timeval
      → Option (DnsCache × Found)
  resolve_cached c name ns time start now =
      answer c name ns (Option.map (λ t. start) time) now (is_cached c.entries name)
