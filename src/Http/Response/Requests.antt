-- ===== src/Http/Response/Requests.antt =====
-- src/net-modules/http.c: how many requests a page takes.
use freenote_probe.Base.{
  ℕ, zero, suc, ◌+◌, ◌-◌, ◌≤◌, Bool, true, false, ◌&&◌, ◌||◌, Option, none, some, [], ◌∷◌, ◌++◌,
  ◌≡◌, ◌<◌, refl, ap, ◌∙◌, subst, Bool-cases, inl, inr, arith, ◌==◌, ltb, leb, if◌then◌else◌,
  length, length-append,
}
use freenote_probe.Base.Int.{ℤ, pos, eq_ℤ}
use freenote_probe.CString.{Bytes, codes, c_string}
use freenote_probe.Clock.{Timeval}
use freenote_probe.Cookie.{parse_cstring}
use freenote_probe.Dns.{DnsCache, resolve_cached}
use freenote_probe.HeaderParse.{get_header_dup}
use freenote_probe.Ran.{returns, Always, Always->>=, Always-then, Always-if, Always-weaken}
use freenote_probe.Http.{read_to_buffer, read_header}
use freenote_probe.Http.Body.{Conn, read_with}
use freenote_probe.Http.Body.Pages.{http_read_body}
use freenote_probe.Http.Connect.{http_connect, http_ssl_connect}
use freenote_probe.Http.Path.{http_req_dup}
use freenote_probe.Http.Request.{HttpRequest, url2http, max_cookies_per_request}
use freenote_probe.Http.Text.{http_head_size, get_request}
use freenote_probe.Http.Response.Redirects.{ssl-redirects}
use freenote_probe.Http.World.{
  Outside, World, tick, Result, Respond, body_of, text_of, of_option, of_outcome, is_keep_alive,
  same_host, nested,
}
use freenote_probe.Http.Response.{
  http_redirect_limit, send_http_get_request, by_status, with_status, handle_response, exchange,
  connected, request_with, repathed, target, redirect_target, run_redirect, follow_redirect,
  located, handle_redirect, http_handle_response, http_get,
}

-- At most `n` requests more were sent.
abbrev pub Sends : ℕ → World → Result → Type 0
Sends n w (ret, req, after) = length after.sent ≤ length w.sent + n

abbrev OneMore : World → World → Type 0
OneMore w after = length after.sent ≡ length w.sent + 1

send-OneMore :
    (o : Outside) (req : HttpRequest) (w : World)
    → Always (OneMore w) (send_http_get_request o req w)
send-OneMore o req w =
    Always-then (OneMore w) (of_option (get_request o.user_agent req)) _
      λ text. length-append w.sent (text ∷ [])

-- What answers the requests that are nested `d` deep sends at most `n` more.
module _ (o : Outside) (d n : ℕ) (f : Respond)
    (sends : (req : HttpRequest) (conn : Conn) (w : World)
      → req.redirects ≡ d
      → Always (Sends n w) (f req conn w)) where
  by_status-Sends :
      (code : ℤ) (head : Bytes) (req : HttpRequest) (conn : Conn) (w : World)
      → req.redirects ≡ d
      → Always (Sends n w) (by_status o f code head req conn w)
  by_status-Sends code head req conn w h =
      Always-if (Sends n w) (eq_ℤ code (pos 200)) _ _
        (Always-then (Sends n w)
          (http_read_body o.zlib o.junk (body_of req.body_len req.body) head conn) _
          λ p. omega arith)
        (Always-if (Sends n w) (eq_ℤ code (pos 301) || eq_ℤ code (pos 302)) _ _ (sends req conn w h)
          (omega arith))

  with_status-Sends :
      (head : Bytes) (status : Option (ℤ × ℕ)) (req : HttpRequest) (conn : Conn) (w : World)
      → req.redirects ≡ d
      → Always (Sends n w) (with_status o f head status req conn w)
  with_status-Sends head none req conn w h = omega arith
  with_status-Sends head (some (code, version)) req conn w h =
      Always-then (Sends n w)
        (of_option (parse_cstring req.cookies max_cookies_per_request (c_string head))) _
        λ (cookies, k).
          by_status-Sends code head
            (record req { version = version; cookies = cookies; status = code }) conn w h

  handle_response-Sends :
      (req : HttpRequest) (conn : Conn) (w : World)
      → req.redirects ≡ d
      → Always (Sends n w) (handle_response o f req conn w)
  unfolding handle_response
  handle_response-Sends req conn w h =
      Always-then (Sends n w) (read_with read_to_buffer 1 conn.incoming conn.calls) _ λ (first, c1).
        Always-then (Sends n w)
          (read_with read_header (http_head_size - length first) c1.incoming c1.calls) _
          λ (rest, c2).
            Always-if (Sends n w) (ltb (length (first ++ rest)) 16) _ _ (omega arith)
              (with_status-Sends (first ++ rest) _ _ c2 (record w { ticks = w.ticks + 2 }) h)

  exchange-Sends :
      (req : HttpRequest) (conn : Conn) (w : World) (begun : Timeval)
      → req.redirects ≡ d
      → Always (Sends (n + 1) w) (exchange o f (send_http_get_request o) req conn w begun)
  exchange-Sends req conn w begun h =
      Always->>= (OneMore w) (Sends (n + 1) w) (send_http_get_request o req w) _
        (send-OneMore o req w)
        λ w2 one.
          Always->>= (Sends n w2) (Sends (n + 1) w) (f _ conn (tick w2)) _
            (sends _ conn (tick w2) h) λ (ret, r, w3) more. omega (arith, one, more)

  connected-Sends :
      (req : HttpRequest) (w : World) (begun : Timeval) (conn : Option Conn)
      → req.redirects ≡ d
      → Always (Sends (n + 1) w) (connected o f (send_http_get_request o) req w begun conn)
  connected-Sends req w begun none h = omega arith
  connected-Sends req w begun (some conn) h =
      Always-if (Sends (n + 1) w) req.ssl_ctx _ _
        (Always-if (Sends (n + 1) w) (eq_ℤ (http_ssl_connect o.handshake req).0 (pos 0)) _ _
          (exchange-Sends (http_ssl_connect o.handshake req).1 conn w begun
            (ssl-redirects o.handshake req ∙ h))
          (omega arith))
        (exchange-Sends req conn w begun h)

  request_with-Sends :
      (req : HttpRequest) (w : World)
      → req.redirects ≡ d
      → Always (Sends (n + 1) w) (request_with o f (send_http_get_request o) req w)
  unfolding request_with
  request_with-Sends req w h =
      Always-then (Sends (n + 1) w) (http_connect req w.attempts) _ λ (conn, attempts).
        connected-Sends req (record w { attempts = attempts; ticks = w.ticks + 1 }) _ conn h

  run_redirect-Sends :
      (persistent : Bool) (req : HttpRequest) (conn : Conn) (w : World)
      → req.redirects ≡ d
      → Always (Sends (n + 1) w) (run_redirect o f persistent req conn w)
  run_redirect-Sends true req conn w h =
      Always->>= (OneMore w) (Sends (n + 1) w) (send_http_get_request o req w) _
        (send-OneMore o req w)
        λ w2 one.
          Always-weaken (Sends n w2) (Sends (n + 1) w) (f req conn w2) (sends req conn w2 h)
            λ (ret, r, w3) more. omega (arith, one, more)
  run_redirect-Sends false req conn w h =
      Always-then (Sends (n + 1) w) (of_option req.hostname) _ λ host.
        Always-then (Sends (n + 1) w)
          (of_option (
            resolve_cached o.resolve w.cache host none none (o.clock w.ticks)
              (o.clock (w.ticks + 1))))
          _
          λ (cache, found).
            request_with-Sends (record req { sin_addr = found.addr })
              (record w { cache = cache; ticks = w.ticks + 2 }) h

  -- Finding the target sends nothing.
  target-Unsent :
      (req : HttpRequest) (url : Bytes) (w : World) (found : Option HttpRequest × DnsCache)
      → Always (λ (p : Option HttpRequest × World). p.1.sent ≡ w.sent) (target o req url w found)
  target-Unsent req url w (some newreq, cache) = refl
  target-Unsent req url w (none, cache) =
      Always-then _ (repathed o url (http_req_dup o.ssl_init req)) _ λ r. refl

  redirect_target-Unsent :
      (req : HttpRequest) (url : Bytes) (w : World)
      → Always (λ (p : Option HttpRequest × World). p.1.sent ≡ w.sent) (redirect_target o req url w)
  unfolding redirect_target
  redirect_target-Unsent req url w =
      Always-then _
        (of_outcome (
          url2http o.htons o.ssl_init o.resolve w.cache (some url) (o.clock w.ticks)
            (o.clock (w.ticks + 1))))
        _ λ found. target-Unsent req url (record w { ticks = w.ticks + 2 }) found

  follow_redirect-Sends :
      (req : HttpRequest) (conn : Conn) (persist : Option Bytes) (found : Option HttpRequest)
      (w : World)
      → req.redirects + 1 ≡ d
      → Always (Sends (n + 1) w) (follow_redirect o f req conn persist (found, w))
  follow_redirect-Sends req conn persist none w h = omega arith
  follow_redirect-Sends req conn persist (some found) w h =
      Always-then (Sends (n + 1) w)
        (if ltb 0 req.version && req.ssl_flag == found.ssl_flag
          then same_host req.hostname found.hostname
          else returns false)
        _
        λ same_name.
          Always->>= (Sends (n + 1) w) (Sends (n + 1) w)
            (run_redirect o f (same_name && is_keep_alive persist) (nested req found) conn (tick w))
            _
            (run_redirect-Sends (same_name && is_keep_alive persist) (nested req found) conn
              (tick w) h)
            λ (ret, r, w2) more. more

  handle_redirect-Sends :
      (req : HttpRequest) (conn : Conn) (w : World)
      → req.redirects + 1 ≡ d
      → Always (Sends (n + 1) w) (handle_redirect o f req conn w)
  unfolding handle_redirect
  handle_redirect-Sends req conn w h =
      Always-if (Sends (n + 1) w) (leb http_redirect_limit req.redirects) _ _ (omega arith) (
        Always-then (Sends (n + 1) w) (get_header_dup o.junk (codes "Location") (text_of req.head))
          _ λ url. there url)
    where
      there : (url : Option Bytes) → Always (Sends (n + 1) w) (located o f req conn w url)
      there none = omega arith
      there (some url) =
          Always-then (Sends (n + 1) w)
            (get_header_dup o.junk (codes "Connection") (text_of req.head)) _
            λ persist.
              Always->>= (λ (p : Option HttpRequest × World). p.1.sent ≡ w.sent) (Sends (n + 1) w)
                (redirect_target o req url w) _ (redirect_target-Unsent req url w)
                λ (found, w2) same.
                  Always-weaken (Sends (n + 1) w2) (Sends (n + 1) w)
                    (follow_redirect o f req conn persist (found, w2))
                    (follow_redirect-Sends req conn persist found w2 h)
                    λ (ret, r, w3) more. omega (arith, ap length same, more)

http_handle_response-Sends :
    (o : Outside) (fuel : ℕ) (req : HttpRequest) (conn : Conn) (w : World)
    → Always
        (Sends (http_redirect_limit - req.redirects) w)
        (http_handle_response o fuel req conn w)
unfolding http_handle_response
http_handle_response-Sends o zero req conn w = tt
http_handle_response-Sends o (suc fuel) req conn w =
    handle_response-Sends o req.redirects (http_redirect_limit - req.redirects) _
      (redirect (λ r2 c2 v2. http_handle_response-Sends o fuel r2 c2 v2)) req conn w refl
  where
    redirect :
        ((r2 : HttpRequest) (c2 : Conn) (v2 : World)
          → Always
              (Sends (http_redirect_limit - r2.redirects) v2)
              (http_handle_response o fuel r2 c2 v2))
        → (r : HttpRequest) (c : Conn) (v : World) → r.redirects ≡ req.redirects
        → Always
            (Sends (http_redirect_limit - req.redirects) v)
            (handle_redirect o (λ r2 c2 v2. http_handle_response o fuel r2 c2 v2) r c v)
    redirect rest r c v depth = elim (Bool-cases (leb http_redirect_limit r.redirects)) [
      | inl t ↦ unfold handle_redirect in rw t (omega arith)
      | inr t ↦
          let below : r.redirects < http_redirect_limit = ground (arith, t) in
          let n = http_redirect_limit - (r.redirects + 1) in
          Always-weaken (Sends (n + 1) v) (Sends (http_redirect_limit - req.redirects) v)
            (handle_redirect o (λ r2 c2 v2. http_handle_response o fuel r2 c2 v2) r c v)
            (handle_redirect-Sends o (r.redirects + 1) n _
              (λ r2 c2 v2 deep.
                Always-weaken (Sends (http_redirect_limit - r2.redirects) v2) (Sends n v2)
                  (http_handle_response o fuel r2 c2 v2) (rest r2 c2 v2)
                  λ (ret, r3, v3) more. omega (arith, more, deep))
              r c v refl)
            λ (ret, r3, v3) more. omega (arith, more, depth, below)
    ]

-- A page takes at most one request, and one more for each redirect that is left below the limit of
-- 10, whatever the servers answer.
pub http_get-Sends :
    (o : Outside) (req : HttpRequest) (w : World)
    → Always (Sends (http_redirect_limit - req.redirects + 1) w) (http_get o req w)
unfolding http_get
http_get-Sends o req w =
    request_with-Sends o req.redirects (http_redirect_limit - req.redirects) _
      (λ r c v same.
        subst (λ k. Always (Sends (http_redirect_limit - k) v) (http_handle_response o 11 r c v))
          same (http_handle_response-Sends o 11 r c v))
      req w refl
