-- ===== src/Http/Fetched.antt =====
-- src/url-parse.c: the request that `url2http` makes of a URL, by the parts of the URL and the cache
-- of addresses.
use freenote_probe.Base.{
  ℕ, ◌+◌, ◌<◌, false, Option, none, some, [], ◌∷◌, ◌++◌, ◌≡◌, refl, ap, if◌then◌else◌, length,
}
use freenote_probe.Base.Int.{ℤ, pos, eq_ℤ}
use freenote_probe.CString.{Bytes, codes, starts_with, streq}
use freenote_probe.CString.Search.{Lacks}
use freenote_probe.Clock.{Timeval}
use freenote_probe.Url.{done, field_size}
use freenote_probe.Url.Accepts.{
  UserInfo, url_text, UserFits, PortFits, port_text, port_of, user_of, passwd_of,
  url_parse-url_text,
}
use freenote_probe.Dns.{DnsCache, Found}
use freenote_probe.Dns.Cached.{Sound, resolve_cached-Sound}
use freenote_probe.Http.Request.{HttpRequest, u16_of, new_http_req, t0, blank_cookies, url2http}
use freenote_probe.Cookie.{init_cookie_list}

-- What of a request says whom it asks for what.
pub record Asks (htons : ℕ → ℕ) (req : HttpRequest) (addr : ℕ) (user : UserInfo) (host : Bytes)
    (port : ℤ) (path : Bytes) : Type 0 where
  pub sin_addr : req.sin_addr ≡ addr
  pub sin_port : req.sin_port ≡ htons (if eq_ℤ port (pos 0) then 80 else u16_of port)
  pub no_ssl : (req.ssl_flag ≡ 0) × (req.ssl_ctx ≡ false)
  pub username : req.username ≡ some (user_of user)
  pub password : req.password ≡ some (passwd_of user)
  pub hostname : req.hostname ≡ some host
  pub url : req.url ≡ some (b'/' ∷ path)

plain_request : (ℕ → ℕ) → ℕ → ℤ → Bytes → Bytes → Bytes → Bytes → HttpRequest
plain_request htons addr port hostname url password username = record {
  sin_addr = addr;
  sin_port = htons (if eq_ℤ port (pos 0) then 80 else u16_of port);
  redirects = 0;
  version = 1;
  ssl_flag = 0;
  redirect_tv = t0;
  connect_tv = t0;
  first_byte_tv = t0;
  page_tv = t0;
  status = pos 0;
  body_len = 0;
  hostname = some hostname;
  password = some password;
  username = some username;
  url = some url;
  head = some [];
  body = none;
  ssl_ctx = false;
  cookies = init_cookie_list blank_cookies;
}

new_http_req_plain :
    (htons : ℕ → ℕ) (ssl : HttpRequest → Option HttpRequest) (addr : ℕ) (port : ℤ)
    (host path passwd user : Bytes)
    → new_http_req htons ssl addr port host path false (some passwd) (some user)
      ≡ some (plain_request htons addr port host path passwd user)
unfolding new_http_req plain_request
new_http_req_plain htons ssl addr port host path passwd user = refl

-- A URL `http...://[user[:passwd]@]host[:port]/path` whose parts fit their fields, with a sound cache
-- of addresses, becomes a request for its host, port, path, user and password, whose address is one
-- that the resolver gives for the host; the cache stays sound. Whatever follows "http" in the
-- scheme, also for https, the request is without SSL, and its port is 80 where none is given.
pub url2http-url_text :
    (htons : ℕ → ℕ) (http_ssl_init : HttpRequest → Option HttpRequest)
    (resolve : Bytes → Option Bytes → Option Timeval → Found) (cache : DnsCache)
    (start now : Timeval) (more : Bytes) (user : UserInfo) (host : Bytes) (port : Option Bytes)
    (path : Bytes)
    → Sound resolve cache
    → Lacks b':' (codes "http" ++ more)
    → UserFits user (host ++ port_text port path)
    → Lacks b':' host
    → Lacks b'/' host
    → PortFits port
    → length host < field_size
    → length path + 1 < field_size
    → (req : HttpRequest) × (after : DnsCache) × (addr : ℕ) × (url2http htons http_ssl_init resolve
          cache
          (some (url_text (codes "http" ++ more) user host port path))
          start
          now
        ≡ done (some req, after))
      × Asks htons req addr user host (port_of port path) path
      × ((asked : Option Bytes) × (t : Option Timeval) × ((resolve host asked t).addr ≡ addr))
      × Sound resolve after
unfolding url2http plain_request
url2http-url_text htons ssl resolve cache start now more user host port path sound hs hu hc hh hp hl
      hl2 =
    let (after, found, ran, sound2, given) =
      resolve_cached-Sound resolve cache host none none start now sound in
    let taken_apart =
      url_parse-url_text (codes "http" ++ more) user host port path hs hu hc hh hp hl hl2 in
    (
      plain_request htons found.addr (port_of port path) host (b'/' ∷ path) (passwd_of user)
          (user_of user),
      after,
      found.addr,
      unfold starts_with in
          rw (taken_apart, ran)
            (unfold streq in ap (λ r. done (r, after)) (new_http_req_plain htons ssl _ _ _ _ _ _)),
      record {
        sin_addr = refl;
        sin_port = refl;
        no_ssl = (refl, refl);
        username = refl;
        password = refl;
        hostname = refl;
        url = refl;
      },
      given,
      sound2,
    )
