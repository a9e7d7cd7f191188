-- ===== src/Http/Response/Redirects.antt =====
-- src/net-modules/http.c: redirects come to an end.
use freenote_probe.Base.{
  ℕ, zero, suc, ◌+◌, ◌≤◌, ◌<◌, Bool, true, false, ◌&&◌, ◌||◌, Option, none, some, ◌++◌, ◌≡◌, refl,
  ap, ◌∙◌, ◌-◌, if-same, arith, ◌==◌, ltb, leb, if◌then◌else◌, length, Bool-cases, inl, inr,
}
use freenote_probe.Base.Int.{ℤ, pos, eq_ℤ}
use freenote_probe.CString.{Bytes, codes, c_string}
use freenote_probe.Clock.{Timeval}
use freenote_probe.Cookie.{parse_cstring}
use freenote_probe.Dns.{resolve_cached}
use freenote_probe.HeaderParse.{get_header_dup}
use freenote_probe.Ran.{Ran, returns, ◌>>=◌, bind-same}
use freenote_probe.Http.{read_to_buffer, read_header}
use freenote_probe.Http.Body.{Conn, read_with}
use freenote_probe.Http.Connect.{http_connect, http_ssl_connect}
use freenote_probe.Http.Request.{HttpRequest, max_cookies_per_request}
use freenote_probe.Http.Text.{http_head_size}
use freenote_probe.Http.World.{
  Outside, World, tick, Respond, text_of, of_option, is_keep_alive, same_host, nested,
}
use freenote_probe.Http.Response.{
  http_redirect_limit, send_http_get_request, by_status, with_status, handle_response, timed_page,
  exchange, connected, request_with, redirect_target, run_redirect, copy_back, follow_redirect,
  located, handle_redirect, http_handle_response,
}

-- Two ways to answer a request agree on all that are nested `n` deep.
abbrev Agree : ℕ → Respond → Respond → Type 0
Agree n f g =
    (req : HttpRequest) (conn : Conn) (w : World) → req.redirects ≡ n → f req conn w ≡ g req conn w

pub ssl-redirects :
    (handshake : HttpRequest → Bool) (req : HttpRequest)
    → (http_ssl_connect handshake req).1.redirects ≡ req.redirects
unfolding http_ssl_connect
ssl-redirects handshake req = elim (Bool-cases (req.ssl_flag == 2)) [
  | inl t ↦ rw t refl
  | inr t ↦ rw t (elim (Bool-cases (handshake req)) [ inl u ↦ rw u refl | inr u ↦ rw u refl ])
]

module _ (o : Outside) (n : ℕ) (f g : Respond) (same : Agree n f g) where
  by_status-same :
      (code : ℤ) (head : Bytes) (req : HttpRequest) (conn : Conn) (w : World)
      → req.redirects ≡ n
      → by_status o f code head req conn w ≡ by_status o g code head req conn w
  by_status-same code head req conn w h =
      if-same (eq_ℤ code (pos 200)) refl
        (if-same (eq_ℤ code (pos 301) || eq_ℤ code (pos 302)) (same req conn w h) refl)

  with_status-same :
      (head : Bytes) (status : Option (ℤ × ℕ)) (req : HttpRequest) (conn : Conn) (w : World)
      → req.redirects ≡ n
      → with_status o f head status req conn w ≡ with_status o g head status req conn w
  with_status-same head none req conn w h = refl
  with_status-same head (some (code, version)) req conn w h =
      bind-same (of_option (parse_cstring req.cookies max_cookies_per_request (c_string head))) _ _
        λ (cookies, k).
          by_status-same code head
            (record req { version = version; cookies = cookies; status = code }) conn w h

  handle_response-same :
      (req : HttpRequest) (conn : Conn) (w : World)
      → req.redirects ≡ n
      → handle_response o f req conn w ≡ handle_response o g req conn w
  unfolding handle_response
  handle_response-same req conn w h =
      bind-same (read_with read_to_buffer 1 conn.incoming conn.calls) _ _ λ (first, c1).
        bind-same (read_with read_header (http_head_size - length first) c1.incoming c1.calls) _ _
          λ (rest, c2).
            if-same (ltb (length (first ++ rest)) 16) refl
              (with_status-same (first ++ rest) _ _ c2 _ h)

  exchange-same :
      (send : HttpRequest → World → Ran World) (req : HttpRequest) (conn : Conn) (w : World)
      (begun : Timeval)
      → req.redirects ≡ n
      → exchange o f send req conn w begun ≡ exchange o g send req conn w begun
  exchange-same send req conn w begun h =
      bind-same (send req w) _ _ λ w2. ap (timed_page o begun) (same _ conn (tick w2) h)

  connected-same :
      (send : HttpRequest → World → Ran World) (req : HttpRequest) (w : World) (begun : Timeval)
      (conn : Option Conn)
      → req.redirects ≡ n
      → connected o f send req w begun conn ≡ connected o g send req w begun conn
  connected-same send req w begun none h = refl
  connected-same send req w begun (some conn) h =
      if-same req.ssl_ctx
        (if-same (eq_ℤ (http_ssl_connect o.handshake req).0 (pos 0))
          (exchange-same send (http_ssl_connect o.handshake req).1 conn w begun
            (ssl-redirects o.handshake req ∙ h))
          refl)
        (exchange-same send req conn w begun h)

  request_with-same :
      (send : HttpRequest → World → Ran World) (req : HttpRequest) (w : World)
      → req.redirects ≡ n
      → request_with o f send req w ≡ request_with o g send req w
  unfolding request_with
  request_with-same send req w h =
      bind-same (http_connect req w.attempts) _ _
        λ (conn, attempts). connected-same send req _ _ conn h

  run_redirect-same :
      (persistent : Bool) (req : HttpRequest) (conn : Conn) (w : World)
      → req.redirects ≡ n
      → run_redirect o f persistent req conn w ≡ run_redirect o g persistent req conn w
  run_redirect-same true req conn w h =
      bind-same (send_http_get_request o req w) _ _ λ w2. same req conn w2 h
  run_redirect-same false req conn w h = bind-same (of_option req.hostname) _ _ λ host.
      bind-same
        (of_option (
          resolve_cached o.resolve w.cache host none none (o.clock w.ticks)
            (o.clock (w.ticks + 1))))
        _ _ λ (cache, found). request_with-same (send_http_get_request o) _ _ h

  follow_redirect-same :
      (req : HttpRequest) (conn : Conn) (persist : Option Bytes) (found : Option HttpRequest)
      (w : World)
      → req.redirects + 1 ≡ n
      → follow_redirect o f req conn persist (found, w)
        ≡ follow_redirect o g req conn persist (found, w)
  follow_redirect-same req conn persist none w h = refl
  follow_redirect-same req conn persist (some found) w h =
      bind-same
        (if ltb 0 req.version && req.ssl_flag == found.ssl_flag
          then same_host req.hostname found.hostname
          else returns false)
        _ _
        λ same_name.
          ap (λ m. m >>= λ r. copy_back o req (o.clock w.ticks) r)
            (run_redirect-same (same_name && is_keep_alive persist) (nested req found) conn (tick w)
              h)

  handle_redirect-same :
      (req : HttpRequest) (conn : Conn) (w : World)
      → req.redirects + 1 ≡ n
      → handle_redirect o f req conn w ≡ handle_redirect o g req conn w
  unfolding handle_redirect
  handle_redirect-same req conn w h = if-same (leb http_redirect_limit req.redirects) refl (
      bind-same (get_header_dup o.junk (codes "Location") (text_of req.head)) _ _
        (λ url. there url))
    where
      there : (url : Option Bytes) → located o f req conn w url ≡ located o g req conn w url
      there none = refl
      there (some url) =
          bind-same (get_header_dup o.junk (codes "Connection") (text_of req.head)) _ _ λ persist.
            bind-same (redirect_target o req url w) _ _
              λ (found, w2). follow_redirect-same req conn persist found w2 h

-- At the limit no further request is made.
handle_redirect_limit :
    (o : Outside) (f g : Respond) (req : HttpRequest) (conn : Conn) (w : World)
    → http_redirect_limit ≤ req.redirects
    → handle_redirect o f req conn w ≡ handle_redirect o g req conn w
unfolding handle_redirect
handle_redirect_limit o f g req conn w h =
    let stop : leb http_redirect_limit req.redirects ≡ true = ground arith in rw stop refl

-- Redirects come to an end by themselves: any two numbers of nested responses that reach one more
-- than the limit of redirects give the same result, whatever the servers answer. `http_get` allows
-- for 11 of them.
pub http_handle_response_fuel :
    (o : Outside) (fuel fuel2 : ℕ) (req : HttpRequest) (conn : Conn) (w : World)
    → 0 < fuel
    → 0 < fuel2
    → http_redirect_limit < req.redirects + fuel
    → http_redirect_limit < req.redirects + fuel2
    → http_handle_response o fuel req conn w ≡ http_handle_response o fuel2 req conn w
unfolding http_handle_response
http_handle_response_fuel o zero fuel2 req conn w h h2 e e2 = absurd (omega arith)
http_handle_response_fuel o (suc fuel) zero req conn w h h2 e e2 = absurd (omega arith)
http_handle_response_fuel o (suc fuel) (suc fuel2) req conn w h h2 e e2 =
    handle_response-same o req.redirects _ _
      (redirect_same
        (λ r2 c2 v2 h3 h4 e3 e4. http_handle_response_fuel o fuel fuel2 r2 c2 v2 h3 h4 e3 e4))
      req conn w refl
  where
    redirect_same :
        ((r2 : HttpRequest) (c2 : Conn) (v2 : World)
          → 0 < fuel
          → 0 < fuel2
          → http_redirect_limit < r2.redirects + fuel
          → http_redirect_limit < r2.redirects + fuel2
          → http_handle_response o fuel r2 c2 v2 ≡ http_handle_response o fuel2 r2 c2 v2)
        → Agree req.redirects
            (λ r c v. handle_redirect o (λ r2 c2 v2. http_handle_response o fuel r2 c2 v2) r c v)
            (λ r c v. handle_redirect o (λ r2 c2 v2. http_handle_response o fuel2 r2 c2 v2) r c v)
    redirect_same rest r c v depth = elim (Bool-cases (leb http_redirect_limit r.redirects)) [
      | inl t ↦ handle_redirect_limit o _ _ r c v (ground (arith, t))
      | inr t ↦
          let below : r.redirects < http_redirect_limit = ground (arith, t) in
          handle_redirect-same o (r.redirects + 1) _ _
            (λ r2 c2 v2 d. rest r2 c2 v2 (omega arith) (omega arith) (omega arith) (omega arith)) r
            c v refl
    ]
