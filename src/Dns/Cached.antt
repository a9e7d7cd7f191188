-- ===== src/Dns/Cached.antt =====
-- src/net-modules/dns.c: what the cache answers, against what the resolver answered.
use mathlib.Core.Option
use mathlib.Core.Option.{some-injective}
use freenote_probe.Base.{
  ℕ, ◌%◌, ◌<◌, Option, none, some, ◌≡◌, refl, sym, ap, ◌∙◌, arith, get_elem?, length, length-set,
  Option-cases, inl, inr, All, All-set, All-get_elem?, get_elem?-set_self,
}
use freenote_probe.CString.{Bytes}
use freenote_probe.Clock.{Timeval, time_difference}
use freenote_probe.Dns.{
  DnsCentry, DnsCache, Found, max_dns_cache_size, is_cached, add_cache, resolve_cached, answer,
}
use freenote_probe.Dns.Slots.{Absent, is_cached-none, is_cached-some, is_cached-set}

module _ (resolve : Bytes → Option Bytes → Option Timeval → Found) where
  -- The address of a named slot is one that the resolver gave for the name, for some nameserver.
  abbrev pub Resolved : DnsCentry → Type 0
  Resolved i =
      (n : Bytes)
      → i.name ≡ some n
      → (ns : Option Bytes) × (time : Option Timeval) × ((resolve n ns time).addr ≡ i.addr)

  pub record Sound (c : DnsCache) : Type 0 where
    pub slots : length c.entries ≡ max_dns_cache_size
    pub resolved : All Resolved c.entries

pub resolve_cached_miss :
    (resolve : Bytes → Option Bytes → Option Timeval → Found) (c : DnsCache) (name : Bytes)
    (ns : Option Bytes) (time : Option Timeval) (start now : Timeval)
    → is_cached c.entries name ≡ none
    → resolve_cached resolve c name ns time start now
      ≡ some (
        add_cache c name (resolve name ns (Option.map (λ t. start) time)).addr,
        resolve name ns (Option.map (λ t. start) time),
      )
unfolding resolve_cached answer
resolve_cached_miss resolve c name ns time start now e =
    ap (answer resolve c name ns (Option.map (λ t. start) time) now) e

pub resolve_cached_hit :
    (resolve : Bytes → Option Bytes → Option Timeval → Found) (c : DnsCache) (name : Bytes)
    (ns : Option Bytes) (time : Option Timeval) (start now : Timeval) {n : ℕ} {i : DnsCentry}
    → is_cached c.entries name ≡ some n
    → get_elem? c.entries n ≡ some i
    → resolve_cached resolve c name ns time start now
      ≡ some (c, record { addr = i.addr; time = Option.map (λ t. time_difference now start) time })
unfolding resolve_cached answer
resolve_cached_hit resolve c name ns none start now e slot =
    ap (answer resolve c name ns none now) e ∙ rw slot
resolve_cached_hit resolve c name ns (some t) start now e slot =
    ap (answer resolve c name ns (some start) now) e ∙ rw slot

add_cache-Sound :
    (resolve : Bytes → Option Bytes → Option Timeval → Found) (c : DnsCache) (name : Bytes)
    (ns : Option Bytes) (time : Option Timeval)
    → Sound resolve c
    → Sound resolve (add_cache c name (resolve name ns time).addr)
unfolding add_cache
add_cache-Sound resolve c name ns time h = record {
  slots = length-set {0} c.entries _ _ ∙ h.slots;
  resolved = All-set (Resolved resolve) c.entries _ _ h.resolved (λ n e.
      (ns, time, ap (λ m. (resolve m ns time).addr) (let same : name ≡ n = cc in sym same)));
}

-- A cache is sound if it has 32 slots, and in each slot with a name an address that the resolver
-- gives for that name. A lookup in a sound cache returns and keeps it sound. The address that it
-- returns is one that the resolver gives for the name asked, though perhaps for another nameserver
-- than the one passed.
pub resolve_cached-Sound :
    (resolve : Bytes → Option Bytes → Option Timeval → Found) (c : DnsCache) (name : Bytes)
    (ns : Option Bytes) (time : Option Timeval) (start now : Timeval)
    → Sound resolve c
    → (after : DnsCache) × (found : Found) × (resolve_cached resolve c name ns time start now
        ≡ some (after, found))
      × Sound resolve after
      × ((asked : Option Bytes) × (t : Option Timeval) × ((resolve name asked t).addr ≡ found.addr))
resolve_cached-Sound resolve c name ns time start now h =
    elim (Option-cases (is_cached c.entries name)) [
      | inl e ↦ (
        _,
        _,
        resolve_cached_miss resolve c name ns time start now e,
        add_cache-Sound resolve c name ns _ h,
        (ns, _, refl),
      )
      | inr (n, e) ↦
          let (i, slot, its_name) = is_cached-some c.entries name e in
          (
            c,
            _,
            resolve_cached_hit resolve c name ns time start now e slot,
            h,
            All-get_elem? (Resolved resolve) c.entries n h.resolved slot name its_name,
          )
    ]

in_array : (c : DnsCache) → length c.entries ≡ max_dns_cache_size → c.index % 32 < length c.entries
in_array c h = rw h (omega arith)

-- What `add_cache` writes is found, in the slot that it wrote.
cached_by_add :
    (c : DnsCache) (name : Bytes) (addr : ℕ)
    → length c.entries ≡ max_dns_cache_size
    → Absent name c.entries
    → is_cached (add_cache c name addr).entries name ≡ some (c.index % max_dns_cache_size)
unfolding add_cache
cached_by_add c name addr h absent = is_cached-set c.entries _ name addr absent (in_array c h)

slot_of_add :
    (c : DnsCache) (name : Bytes) (addr : ℕ)
    → length c.entries ≡ max_dns_cache_size
    → get_elem? (add_cache c name addr).entries (c.index % max_dns_cache_size)
      ≡ some (record { name = some name; addr = addr })
unfolding add_cache
slot_of_add c name addr h = get_elem?-set_self c.entries _ _ (in_array c h)

-- In a cache of 32 slots a second lookup of a name gives the address that the first one gave, and
-- leaves the cache as it is, whatever the resolver would answer by then, and for any nameserver.
pub resolve_cached_twice :
    (resolve later : Bytes → Option Bytes → Option Timeval → Found) (c after : DnsCache)
    (name : Bytes) (ns ns2 : Option Bytes) (time time2 : Option Timeval)
    (start now start2 now2 : Timeval) (found : Found)
    → length c.entries ≡ max_dns_cache_size
    → resolve_cached resolve c name ns time start now ≡ some (after, found)
    → resolve_cached later after name ns2 time2 start2 now2
      ≡ some (
        after,
        record { addr = found.addr; time = Option.map (λ t. time_difference now2 start2) time2 },
      )
resolve_cached_twice resolve later c after name ns ns2 time time2 start now start2 now2 found h
      first =
    elim (Option-cases (is_cached c.entries name)) [
      | inl e ↦
          let asked = resolve name ns (Option.map (λ t. start) time) in
          let both = sym (resolve_cached_miss resolve c name ns time start now e) ∙ first in
          let cache : add_cache c name asked.addr ≡ after =
            ap (λ p. p.0) (some-injective _ _ both) in
          let same : asked ≡ found = ap (λ p. p.1) (some-injective _ _ both) in
          rw (← cache, ← same)
            (resolve_cached_hit later _ name ns2 time2 start2 now2
              (cached_by_add c name asked.addr h (is_cached-none c.entries name e))
              (slot_of_add c name asked.addr h))
      | inr (n, e) ↦
          let (i, slot, its_name) = is_cached-some c.entries name e in
          let both = sym (resolve_cached_hit resolve c name ns time start now e slot) ∙ first in
          let cache : c ≡ after = ap (λ p. p.0) (some-injective _ _ both) in
          let same : i.addr ≡ found.addr =
            ap (λ (p : DnsCache × Found). p.1.addr) (some-injective _ _ both) in
          rw (← cache, ← same) (resolve_cached_hit later c name ns2 time2 start2 now2 e slot)
    ]
