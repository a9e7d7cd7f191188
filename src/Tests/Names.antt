-- ===== src/Tests/Names.antt =====
-- src/net-modules/dns.c on concrete caches and answers of the resolver.
use freenote_probe.Base.{
  ℕ, zero, suc, if◌then◌else◌, true, Option, none, some, [], ◌∷◌, ◌≡◌, refl, arith, replicate, All,
}
use freenote_probe.Base.Int.{pos}
use freenote_probe.CString.{Bytes, codes, streq}
use freenote_probe.Task.Types.{inaddr_none}
use freenote_probe.Clock.{Timeval, time_difference}
use freenote_probe.Dns.{DnsCache, Found, add_cache, resolve_cached, answer, is_cached, cache_itest}
use freenote_probe.Dns.Resolver.{
  host, Ares, next_round, arrived, Addresses, resolve, unanswered, resolve-Hears,
}
use freenote_probe.Dns.Cached.{Sound, Resolved, resolve_cached-Sound}

abbrev pub at_second : ℕ → Timeval
at_second s = record { tv_sec = pos s; tv_usec = pos 0 }

-- A library that knows one host and answers in the second round.
abbrev one_host : Ares
one_host = record {
  starts = true;
  default_server = 167772161;
  inet_addr = λ s. if streq s (codes "10.0.0.7") then 167772167 else inaddr_none;
  inet_ntoa = λ a. codes "10.0.0.7";
  at_once = λ to name. none;
  rounds = λ to name.
      record { nfds = 1; answer = none } ∷ record { nfds = 1; answer = some (host 167772167) } ∷ [];
}

one_host-Addresses : Addresses one_host (some (host 167772167))
unfolding unanswered streq
one_host-Addresses = record {
  read_back = λ a e. ground (arith, e);
  no_dash = λ a e. refl;
  invalid = refl;
  broadcast = refl;
}

resolve-Hears_example :
    resolve one_host (codes "example.org") none (some (at_second 0)) (at_second 5) (at_second 7)
    ≡ some (record { addr = 167772167; time = some (time_difference (at_second 5) (at_second 7)) })
resolve-Hears_example =
    resolve-Hears one_host (codes "example.org") none (some (at_second 0)) (at_second 5)
      (at_second 7) (some (host 167772167)) refl (next_round refl (next_round refl arrived))
      one_host-Addresses

abbrev pub resolver : Bytes → Option Bytes → Option Timeval → Found
resolver name ns time = record { addr = 167772167; time = time }

abbrev pub empty : DnsCache
empty = record { entries = replicate 32 (record { name = none; addr = inaddr_none }); index = 0 }

free-Resolved :
    (n : ℕ) → All (Resolved resolver) (replicate n (record { name = none; addr = inaddr_none }))
free-Resolved zero = tt
free-Resolved (suc n) = (λ m e. cc, free-Resolved n)

pub empty-Sound : Sound resolver empty
empty-Sound = record { slots = refl; resolved = free-Resolved 32 }

resolve_cached-Sound_example :
    (after : DnsCache) × (found : Found) × (resolve_cached resolver empty
        (codes "a")
        none
        none
        (at_second 0)
        (at_second 1)
      ≡ some (after, found))
    × Sound resolver after
    × ((asked : Option Bytes) × (t : Option Timeval) × ((resolver (codes "a") asked t).addr
          ≡ found.addr))
resolve_cached-Sound_example =
    resolve_cached-Sound resolver empty (codes "a") none none (at_second 0) (at_second 1)
      empty-Sound

abbrev asked_once : DnsCache
asked_once = record {
  entries =
      record { name = some (codes "a"); addr = 167772167 }
      ∷ replicate 31 (record { name = none; addr = inaddr_none });
  index = 1;
}

first_lookup :
    resolve_cached resolver empty (codes "a") none none (at_second 0) (at_second 1)
    ≡ some (asked_once, record { addr = 167772167; time = none })
unfolding resolve_cached answer is_cached cache_itest add_cache
first_lookup = refl

abbrev wrapping : DnsCache
wrapping = record empty { index = 255 }
