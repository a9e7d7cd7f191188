-- ===== src/Dns/Ring.antt =====
-- src/net-modules/dns.c: the slots of the cache are overwritten in turn.
use freenote_probe.Base.{
  ℕ, suc, ◌+◌, ◌%◌, ◌<◌, some, List, [], ◌∷◌, ◌≡◌, refl, ◌∙◌, arith, get_elem?, length,
  get_elem?-set_self, get_elem?-set_ne,
}
use freenote_probe.CString.{Bytes}
use freenote_probe.Dns.{DnsCache, max_dns_cache_size, add_cache}

-- Names that miss the cache, with their addresses, added one after the other.
abbrev pub add_all : DnsCache → List (Bytes × ℕ) → DnsCache
add_all c [] = c
add_all c ((name, addr) ∷ more) = add_all (add_cache c name addr) more

-- A slot that the counter passed `d` additions ago is not written by the additions that remain
-- before the counter comes round.
kept :
    (c : DnsCache) (more : List (Bytes × ℕ)) (slot d : ℕ)
    → slot < 32
    → 0 < d
    → c.index % 32 ≡ (slot + d) % 32
    → d + length more < 33
    → get_elem? (add_all c more).entries slot ≡ get_elem? c.entries slot
unfolding add_cache
kept c [] slot d h pos at lt = refl
kept c ((name, addr) ∷ more) slot d h pos at lt =
    kept (add_cache c name addr) more slot (suc d) h (omega arith) (omega (arith, at)) (omega arith)
    ∙ get_elem?-set_ne c.entries _ (λ same. absurd (omega (arith, at, same)))

-- An entry stays in its slot while fewer than 32 further names are added, also where the counter
-- wraps at 256; every slot of the array is one that the counter can take.
pub add_cache-add_all :
    (c : DnsCache) (name : Bytes) (addr : ℕ) (more : List (Bytes × ℕ))
    → length c.entries ≡ max_dns_cache_size
    → length more < max_dns_cache_size
    → get_elem? (add_all (add_cache c name addr) more).entries (c.index % max_dns_cache_size)
      ≡ some (record { name = some name; addr = addr })
unfolding add_cache
add_cache-add_all c name addr more h lt =
    kept (add_cache c name addr) more (c.index % 32) 1 (omega arith) (omega arith) next
      (omega arith)
    ∙ get_elem?-set_self c.entries _ _ (rw h (omega arith))
  where
    next : (c.index + 1) % 256 % 32 ≡ (c.index % 32 + 1) % 32
    next = omega arith
