-- ===== src/Http/Response.antt =====
-- src/net-modules/http.c: `http_get`, `http_post_str`, and the handling of a response with its
-- redirects. A redirect makes another request, so the functions call each other; the fuel is the
-- number of responses that may still be nested.
pub mod Redirects
pub mod Requests
use freenote_probe.Base.{
  ℕ, zero, suc, ◌+◌, ◌-◌, Bool, true, false, ◌&&◌, ◌||◌, Option, none, some, List, [], ◌∷◌, ◌++◌,
  ◌==◌, ltb, leb, if◌then◌else◌, length, drop, map,
}
use freenote_probe.Base.Int.{ℤ, pos, negsuc, eq_ℤ}
use freenote_probe.CString.{Bytes, codes, atoi, streq, tolower, starts_with, c_string}
use freenote_probe.Clock.{Timeval, time_difference, time_sum}
use freenote_probe.Cookie.{parse_cstring}
use freenote_probe.Dns.{DnsCache, Found, resolve_cached}
use freenote_probe.HeaderParse.{get_header_dup}
use freenote_probe.Ran.{Ran, returns, aborts, faults, ◌>>=◌}
use freenote_probe.Url
use freenote_probe.Url.{Outcome}
use freenote_probe.Http.{read_to_buffer, read_header}
use freenote_probe.Http.Chunked.{Body}
use freenote_probe.Http.Body.{Conn, read_with, Inflated}
use freenote_probe.Http.Body.Pages.{Page, http_read_body}
use freenote_probe.Http.Connect.{Attempt, http_connect, http_ssl_connect}
use freenote_probe.Http.Path.{http_repath, headbody_dup, http_req_dup}
use freenote_probe.Http.Request.{HttpRequest, url2http, max_cookies_per_request}
use freenote_probe.Http.World.{
  Outside, Respond, Result, World, body_of, is_keep_alive, nested, of_option, of_outcome, put_body,
  put_page, same_host, status_of, text_of, tick,
}
use freenote_probe.Http.Text.{http_head_size, get_request, post_request_str}

abbrev pub http_redirect_limit : ℕ
http_redirect_limit = 10

module _ (o : Outside) where
  abbrev pub send_http_get_request : HttpRequest → World → Ran World
  send_http_get_request req w = of_option (get_request o.user_agent req) >>= λ text.
      returns (record w { sent = w.sent ++ text ∷ [] })

  -- The response to one request; `redirect` handles the codes 301 and 302.
  abbrev pub by_status : Respond → ℤ → Bytes → Respond
  by_status redirect code head req conn w =
      if eq_ℤ code (pos 200)
      then (http_read_body o.zlib o.junk (body_of req.body_len req.body) head conn >>= λ p.
          returns (pos 0, put_page req p, w))
      else if eq_ℤ code (pos 301) || eq_ℤ code (pos 302)
      then redirect req conn w
      else returns (code, req, w)

  abbrev pub with_status : Respond → Bytes → Option (ℤ × ℕ) → Respond
  with_status redirect head none req conn w = returns (negsuc 0, req, w)
  with_status redirect head (some (code, version)) req conn w =
      of_option (parse_cstring req.cookies max_cookies_per_request (c_string head))
      >>= λ (cookies, n).
          by_status redirect code head
            (record req { version = version; cookies = cookies; status = code }) conn w

  abbrev pub with_head : Respond → Bytes → Respond
  with_head redirect head req conn w =
      if ltb (length head) 16
      then returns (negsuc 0, req, w)
      else with_status redirect head (status_of (c_string head) req.version) req conn w

  -- A request gets one body at most: the memory of its head, which is cleared here, has its full size
  -- as long as `behead_http_req` has not cut it off, and a request that was given a body before is not
  -- considered.
  unfoldable pub handle_response : Respond → Respond
  handle_response redirect req conn w =
      read_with read_to_buffer 1 conn.incoming conn.calls >>= λ (first, c1).
      read_with read_header (http_head_size - length first) c1.incoming c1.calls >>= λ (rest, c2).
      with_head redirect (first ++ rest)
        (record req {
          head = some (first ++ rest);
          first_byte_tv = time_difference (o.clock (w.ticks + 1)) (o.clock w.ticks);
        })
        c2 (record w { ticks = w.ticks + 2 })

  -- `begun` is when the request began.
  abbrev pub timed_page : Timeval → Ran Result → Ran Result
  timed_page begun m = m >>= λ (ret, req, w).
      returns (ret, record req { page_tv = time_difference (o.clock w.ticks) begun }, tick w)

  abbrev pub exchange :
      Respond
      → (HttpRequest → World → Ran World)
      → HttpRequest
      → Conn
      → World
      → Timeval
      → Ran Result
  exchange respond send req conn w begun = send req w >>= λ w2. timed_page begun (
      respond (record req { connect_tv = time_difference (o.clock w2.ticks) begun }) conn (tick w2))

  abbrev pub secured :
      Respond
      → (HttpRequest → World → Ran World)
      → Conn
      → World
      → Timeval
      → ℤ × HttpRequest
      → Ran Result
  secured respond send conn w begun (ret, req) =
      if eq_ℤ ret (pos 0) then exchange respond send req conn w begun else returns (ret, req, w)

  abbrev pub connected :
      Respond
      → (HttpRequest → World → Ran World)
      → HttpRequest
      → World
      → Timeval
      → Option Conn
      → Ran Result
  connected respond send req w begun none = returns (negsuc 0, req, w)
  connected respond send req w begun (some conn) =
      if req.ssl_ctx
      then secured respond send conn w begun (http_ssl_connect o.handshake req)
      else exchange respond send req conn w begun

  -- Connecting, sending a request and handling its response.
  unfoldable pub request_with :
      Respond → (HttpRequest → World → Ran World) → HttpRequest → World → Ran Result
  request_with respond send req w = http_connect req w.attempts >>= λ (conn, attempts).
      connected respond send req (record w { attempts = attempts; ticks = w.ticks + 1 })
        (o.clock w.ticks) conn

  -- The request that a redirect leads to: a URL of its own, or another path of the old request.
  abbrev pub repathed : Bytes → Option HttpRequest → Ran (Option HttpRequest)
  repathed url none = returns none
  repathed url (some newreq) = http_repath o.dirname newreq url >>= λ r. returns (some r)

  abbrev pub target :
      HttpRequest → Bytes → World → Option HttpRequest × DnsCache → Ran (Option HttpRequest × World)
  target req url w (some newreq, cache) = returns (some newreq, record w { cache = cache })
  target req url w (none, cache) =
      repathed url (http_req_dup o.ssl_init req) >>= λ r. returns (r, record w { cache = cache })

  unfoldable pub redirect_target : HttpRequest → Bytes → World → Ran (Option HttpRequest × World)
  redirect_target req url w =
      of_outcome (
        url2http o.htons o.ssl_init o.resolve w.cache (some url) (o.clock w.ticks)
          (o.clock (w.ticks + 1)))
      >>= λ found. target req url (record w { ticks = w.ticks + 2 }) found

  -- The persistent connection is used again, or the host is looked up and connected to.
  abbrev pub run_redirect : Respond → Bool → HttpRequest → Conn → World → Ran Result
  run_redirect respond true newreq conn w =
      send_http_get_request newreq w >>= λ w2. respond newreq conn w2
  run_redirect respond false newreq conn w = of_option newreq.hostname >>= λ host.
      of_option
        (resolve_cached o.resolve w.cache host none none (o.clock w.ticks) (o.clock (w.ticks + 1)))
      >>= λ (cache, found).
          request_with respond send_http_get_request (record newreq { sin_addr = found.addr })
            (record w { cache = cache; ticks = w.ticks + 2 })

  -- What is copied back to the first request.
  abbrev pub copy_back : HttpRequest → Timeval → Result → Ran Result
  copy_back req begun (ret, newreq, w) = returns (
    ret,
    record (headbody_dup req newreq) {
      redirect_tv = time_sum req.redirect_tv (time_difference (o.clock w.ticks) begun);
      redirects = newreq.redirects;
      status = newreq.status;
    },
    tick w,
  )

  abbrev pub follow_redirect :
      Respond → HttpRequest → Conn → Option Bytes → Option HttpRequest × World → Ran Result
  follow_redirect respond req conn persist (none, w) = returns (negsuc 0, req, w)
  follow_redirect respond req conn persist (some found, w) =
      (if ltb 0 req.version && req.ssl_flag == found.ssl_flag
        then same_host req.hostname found.hostname
        else returns false)
      >>= λ same.
          run_redirect respond (same && is_keep_alive persist) (nested req found) conn (tick w)
          >>= λ r. copy_back req (o.clock w.ticks) r

  abbrev pub located : Respond → HttpRequest → Conn → World → Option Bytes → Ran Result
  located respond req conn w none = returns (negsuc 0, req, w)
  located respond req conn w (some url) =
      get_header_dup o.junk (codes "Connection") (text_of req.head) >>= λ persist.
      redirect_target req url w >>= λ found. follow_redirect respond req conn persist found

  unfoldable pub handle_redirect : Respond → Respond
  handle_redirect respond req conn w =
      if leb http_redirect_limit req.redirects
      then returns (negsuc 0, req, w)
      else (get_header_dup o.junk (codes "Location") (text_of req.head) >>= λ url.
          located respond req conn w url)

  unfoldable pub http_handle_response : ℕ → Respond
  http_handle_response zero req conn w = faults
  http_handle_response (suc fuel) req conn w =
      handle_response
        (λ r c v. handle_redirect (λ r2 c2 v2. http_handle_response fuel r2 c2 v2) r c v) req conn w

  unfoldable pub http_get : HttpRequest → World → Ran Result
  http_get req w =
      request_with (http_handle_response (http_redirect_limit + 1)) send_http_get_request req w

  -- `safe_calloc` asserts that the request has no body.
  abbrev pub no_body_yet : Option Bytes → Ran (Unit {0})
  no_body_yet none = returns tt
  no_body_yet (some body) = aborts

  -- The head that is printed stays in the request until the response is read into its place, and the
  -- body is freed.
  abbrev pub send_http_post_request_str : Bytes → HttpRequest → World → Ran World
  send_http_post_request_str str req w = no_body_yet req.body >>= λ u.
      of_option (post_request_str o.user_agent req str) >>= λ head.
      returns (record w { sent = w.sent ++ head ∷ str ∷ [] })

  unfoldable pub http_post_str : HttpRequest → Bytes → World → Ran Result
  http_post_str req str w =
      request_with (http_handle_response (http_redirect_limit + 1)) (send_http_post_request_str str)
        req w
