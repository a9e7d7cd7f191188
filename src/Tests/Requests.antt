-- ===== src/Tests/Requests.antt =====
-- src/url-parse.c: the request of a concrete URL.
use freenote_probe.Base.{ℕ, ◌*◌, ◌+◌, ◌/◌, ◌%◌, Option, none, some, ◌++◌, ◌≡◌, refl, arith}
use freenote_probe.CString.{Bytes, codes, strchr}
use freenote_probe.CString.Search.{Lacks-strchr}
use freenote_probe.Clock.{Timeval}
use freenote_probe.Url.{done}
use freenote_probe.Url.Accepts.{nobody, url_text, port_of}
use freenote_probe.Dns.{DnsCache}
use freenote_probe.Dns.Cached.{Sound}
use freenote_probe.Http.Request.{HttpRequest, url2http}
use freenote_probe.Http.Fetched.{Asks, url2http-url_text}
use freenote_probe.Tests.Names.{at_second, resolver, empty, empty-Sound}

-- The bytes of a port in the order of the network, on a machine with the low byte first.
abbrev swapped : ℕ → ℕ
swapped n = n % 256 * 256 + n / 256

url2http-url_text_example :
    (req : HttpRequest) × (after : DnsCache) × (addr : ℕ) × (url2http swapped
        (λ r. none)
        resolver
        empty
        (some (url_text (codes "http" ++ codes "s") nobody (codes "h") none (codes "i")))
        (at_second 0)
        (at_second 1)
      ≡ done (some req, after))
    × Asks swapped req addr nobody (codes "h") (port_of none (codes "i")) (codes "i")
    × ((asked : Option Bytes) × (t : Option Timeval) × ((resolver (codes "h") asked t).addr ≡ addr))
    × Sound resolver after
url2http-url_text_example =
    url2http-url_text swapped (λ r. none) resolver empty (at_second 0) (at_second 1) (codes "s")
      nobody (codes "h") none (codes "i") empty-Sound
      (Lacks-strchr (codes "https") b':' (unfold strchr in refl))
      (Lacks-strchr (codes "h/i") b'@' (unfold strchr in refl))
      (Lacks-strchr (codes "h") b':' (unfold strchr in refl))
      (Lacks-strchr (codes "h") b'/' (unfold strchr in refl)) tt (omega arith) (omega arith)
