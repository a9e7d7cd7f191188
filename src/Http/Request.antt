-- ===== src/Http/Request.antt =====
-- src/net-modules/http.c and src/net-modules/http.h: a request, `new_http_req` and
-- `hreq_transform`; and `url2http` of src/url-parse.c, which makes a request of a URL.
use freenote_probe.Base.{
  ℕ, ◌-◌, ◌%◌, Bool, false, not, Option, none, some, List, [], if◌then◌else◌, replicate,
}
use freenote_probe.Base.Int.{ℤ, pos, negsuc, eq_ℤ}
use freenote_probe.CString.{Bytes, codes, starts_with, streq}
use freenote_probe.Clock.{Timeval}
use freenote_probe.Cookie.{Cookie, init_cookie_list}
use freenote_probe.Url.{Outcome, done, fault, ◌>>=◌, url_parse}
use freenote_probe.Dns.{DnsCache, Found, resolve_cached}

abbrev pub max_cookies_per_request : ℕ
max_cookies_per_request = 10

-- The pointers to OpenSSL's structures are left out, but for whether there is a context.
pub record HttpRequest : Type 0 where
  pub sin_addr : ℕ
  pub sin_port : ℕ
  pub redirects : ℕ
  pub version : ℕ
  pub ssl_flag : ℕ
  pub redirect_tv : Timeval
  pub connect_tv : Timeval
  pub first_byte_tv : Timeval
  pub page_tv : Timeval
  pub status : ℤ
  pub body_len : ℕ
  pub hostname : Option Bytes
  pub password : Option Bytes
  pub username : Option Bytes
  pub url : Option Bytes
  pub head : Option Bytes
  pub body : Option Bytes
  pub ssl_ctx : Bool
  pub cookies : List Cookie

-- A port as an unsigned number of 16 bits.
abbrev pub u16_of : ℤ → ℕ
u16_of (pos n) = n % 65536
u16_of (negsuc n) = (65535 - n % 65536) % 65536

abbrev pub t0 : Timeval
t0 = record { tv_sec = pos 0; tv_usec = pos 0 }

-- The memory of `safe_calloc` is zero.
abbrev pub blank_cookies : List Cookie
blank_cookies =
    replicate max_cookies_per_request
      (record { magic_cookie = 0; content = []; path = []; domain = []; expires = [] })

-- `http_ssl_init` is OpenSSL's part; it returns the request, or fails. `htons` puts a port into the
-- order of the network.
unfoldable pub new_http_req :
    (ℕ → ℕ)
    → (HttpRequest → Option HttpRequest)
    → ℕ
    → ℤ
    → Bytes
    → Bytes
    → Bool
    → Option Bytes
    → Option Bytes
    → Option HttpRequest
new_http_req htons http_ssl_init host port hostname url ssl password username =
    let req : HttpRequest = record {
      sin_addr = host;
      sin_port = htons (if eq_ℤ port (pos 0) then (if ssl then 443 else 80) else u16_of port);
      redirects = 0;
      version = 1;
      ssl_flag = 0;
      redirect_tv = t0;
      connect_tv = t0;
      first_byte_tv = t0;
      page_tv = t0;
      status = pos 0;
      body_len = 0;
      hostname = none;
      password = elim username [ none ↦ none | some u ↦ password ];
      username = username;
      url = none;
      head = none;
      body = none;
      ssl_ctx = false;
      cookies = blank_cookies;
    } in
    elim (if ssl then http_ssl_init req else some req) [
      | none ↦ none
      | some r ↦ some (record r {
        head = some [];
        url = some url;
        hostname = some hostname;
        cookies = init_cookie_list r.cookies;
      })
    ]

-- The second component of a lookup that stays in the cache's array.
abbrev pub looked_up : Option (DnsCache × Found) → Outcome (DnsCache × Found)
looked_up none = fault
looked_up (some r) = done r

module _ (htons : ℕ → ℕ) (http_ssl_init : HttpRequest → Option HttpRequest)
    (resolve : Bytes → Option Bytes → Option Timeval → Found) where
  -- `start` and `now` are the two readings of the clock by the cache, which are not used.
  unfoldable pub url2http :
      DnsCache → Option Bytes → Timeval → Timeval → Outcome (Option HttpRequest × DnsCache)
  url2http cache none start now = done (none, cache)
  url2http cache (some url) start now =
      if not (starts_with url (codes "http"))
      then done (none, cache)
      else (url_parse url >>= λ purl.
          looked_up (resolve_cached resolve cache purl.host none none start now)
          >>= λ (after, found). done (
            new_http_req htons http_ssl_init found.addr purl.port purl.host purl.path
                (streq purl.scheme (codes "https")) (some purl.passwd) (some purl.user),
            after,
          ))

-- A parameter that is not null replaces its part of the request.
abbrev or_same {ℓ} : {A : Type ℓ} → A → Option A → A
or_same a none = a
or_same a (some b) = b

abbrev or_kept : Option Bytes → Option Bytes → Option Bytes
or_kept a none = a
or_kept a (some b) = some b

-- The port is not put into the order of the network here.
unfoldable pub hreq_transform :
    HttpRequest
    → Option ℕ
    → Option ℤ
    → Option Bytes
    → Option Bytes
    → Option Bytes
    → Option Bytes
    → HttpRequest
hreq_transform req host port hostname url password username = record req {
  sin_addr = or_same req.sin_addr host;
  sin_port = elim port [ none ↦ req.sin_port | some p ↦ u16_of p ];
  hostname = or_kept req.hostname hostname;
  url = or_kept req.url url;
  password = or_kept req.password password;
  username = or_kept req.username username;
}
