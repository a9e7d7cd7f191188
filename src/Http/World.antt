-- ===== src/Http/World.antt =====
-- src/net-modules/http.c: what the handling of responses works on: the parts outside the program,
-- what the calls so far left behind, and how a status line, a redirect and a page change a request.
use freenote_probe.Base.{
  ℕ, ◌+◌, Bool, false, Option, none, some, List, [], ◌==◌, if◌then◌else◌, drop, map,
}
use freenote_probe.Base.Int.{ℤ}
use freenote_probe.CString.{Bytes, codes, atoi, streq, tolower, starts_with, c_string}
use freenote_probe.Clock.{Timeval}
use freenote_probe.Dns.{DnsCache, Found}
use freenote_probe.Ran.{Ran, returns, aborts, faults}
use freenote_probe.Url
use freenote_probe.Url.{Outcome}
use freenote_probe.Http.Chunked.{Body}
use freenote_probe.Http.Body.{Conn, Inflated}
use freenote_probe.Http.Body.Pages.{Page}
use freenote_probe.Http.Connect.{Attempt}
use freenote_probe.Http.Request.{HttpRequest}

-- What is not part of the program: the byte order, OpenSSL, zlib, the resolver, dirname, the clock at
-- each of its readings, the option "user-agent", and what an uninitialised variable of
-- src/header-parse.c holds.
pub record Outside : Type 0 where
  pub htons : ℕ → ℕ
  pub ssl_init : HttpRequest → Option HttpRequest
  pub handshake : HttpRequest → Bool
  pub zlib : Bytes → Body → Option (List Inflated)
  pub resolve : Bytes → Option Bytes → Option Timeval → Found
  pub dirname : Bytes → Bytes
  pub clock : ℕ → Timeval
  pub user_agent : Bytes
  pub junk : Bool

-- The cache of addresses, the attempts to connect that are still to come, the readings of the clock so
-- far, and the texts of the requests that were made.
pub record World : Type 0 where
  pub cache : DnsCache
  pub attempts : List Attempt
  pub ticks : ℕ
  pub sent : List Bytes

abbrev pub tick : World → World
tick w = record w { ticks = w.ticks + 1 }

-- What a function returns, and the request and the world afterwards.
abbrev pub Result : Type 0
Result = ℤ × HttpRequest × World

abbrev pub Respond : Type 0
Respond = HttpRequest → Conn → World → Ran Result

-- The code of a response, and the version of HTTP from then on.
unfoldable pub status_of : Bytes → ℕ → Option (ℤ × ℕ)
status_of head version =
    if starts_with head (codes "HTTP/1.1 ")
    then some (atoi (drop 9 head), version)
    else if starts_with head (codes "HTTP/1.0 ")
    then some (atoi (drop 9 head), if version == 1 then 0 else version)
    else if starts_with head (codes "HTTP ")
    then some (atoi (drop 5 head), version)
    else none

-- The body of a request, and a page that was read for it.
abbrev pub body_of : ℕ → Option Bytes → Option Body
body_of body_len none = none
body_of body_len (some bytes) = some (record { bytes = bytes; body_len = body_len })

abbrev pub put_body : HttpRequest → Option Body → HttpRequest
put_body req none = record req { body = none; body_len = 0 }
put_body req (some b) = record req { body = some b.bytes; body_len = b.body_len }

abbrev pub put_page : HttpRequest → Page → HttpRequest
put_page req p = put_body (record req { head = some p.head }) p.body

abbrev pub text_of : Option Bytes → Bytes
text_of none = []
text_of (some s) = c_string s

abbrev pub of_outcome {ℓ} : {A : Type ℓ} → Outcome A → Ran A
of_outcome (Url.done a) = returns a
of_outcome Url.aborted = aborts
of_outcome Url.fault = faults

abbrev pub of_option {ℓ} : {A : Type ℓ} → Option A → Ran A
of_option none = faults
of_option (some a) = returns a

-- The request for a redirect, nested in the old one.
abbrev pub nested : HttpRequest → HttpRequest → HttpRequest
nested req found = record found { redirects = req.redirects + 1; version = req.version }

-- persist && !strcasecmp(persist, "keep-alive")
abbrev pub is_keep_alive : Option Bytes → Bool
is_keep_alive none = false
is_keep_alive (some s) = streq (map tolower s) (codes "keep-alive")

-- !strcmp of the names of the hosts; a null pointer is a fault.
abbrev pub same_host : Option Bytes → Option Bytes → Ran Bool
same_host (some a) (some b) = returns (streq a b)
same_host none b = faults
same_host (some a) none = faults
