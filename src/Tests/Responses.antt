-- ===== src/Tests/Responses.antt =====
-- src/net-modules/http.c: requests and their responses on concrete connections.
use freenote_probe.Base.{ℕ, true, false, Option, none, some, [], ◌∷◌, ◌≡◌, refl, arith, length}
use freenote_probe.Base.Int.{ℤ, pos}
use freenote_probe.CString.{
  Bytes, codes, streq, strstr, strrchr, starts_with, starts_with_nocase, isspace, skip_space,
  c_string, atoi,
}
use freenote_probe.CString.Decimal.{decimal}
use freenote_probe.Cookie.{cookies_strdup, parse_cstring}
use freenote_probe.HeaderParse.{get_header_dup, header_type, spaces, copy_value, read_lines}
use freenote_probe.Ran.{Ran, returns, Always}
use freenote_probe.Clock.{time_difference, time_sum}
use freenote_probe.Dns.{resolve_cached, answer, is_cached, cache_itest, add_cache}
use freenote_probe.Http.{Round, gives, read_loop, read_to_buffer, read_header}
use freenote_probe.Http.Body.{Conn, ends}
use freenote_probe.Http.Connect.{Attempt, http_connect, select_loop}
use freenote_probe.Http.Request.{HttpRequest, t0, blank_cookies, url2http, hreq_transform}
use freenote_probe.Http.Path.{http_req_dup, headbody_dup, http_repath}
use freenote_probe.Http.Text.{get_request}
use freenote_probe.Tests.Names.{empty}
use freenote_probe.Http.World.{Outside, World, status_of}
use freenote_probe.Http.Response.{
  http_handle_response, http_get, request_with, handle_response, handle_redirect, redirect_target,
}
use freenote_probe.Http.Response.Redirects.{http_handle_response_fuel}
use freenote_probe.Http.Response.Requests.{Sends, http_get-Sends}

-- Every name has the address 7, and the clock counts seconds.
abbrev outside : Outside
outside = record {
  htons = λ p. p;
  ssl_init = λ r. some r;
  handshake = λ r. true;
  zlib = λ encoding body. some (ends [] ∷ []);
  resolve = λ name ns time. record { addr = 7; time = none };
  dirname = λ path. path;
  clock = λ n. record { tv_sec = pos n; tv_usec = pos 0 };
  user_agent = codes "probe";
  junk = false;
}

abbrev request : HttpRequest
request = record {
  sin_addr = 7;
  sin_port = 80;
  redirects = 0;
  version = 1;
  ssl_flag = 0;
  redirect_tv = t0;
  connect_tv = t0;
  first_byte_tv = t0;
  page_tv = t0;
  status = pos 0;
  body_len = 0;
  hostname = some (codes "h");
  password = none;
  username = none;
  url = some (codes "/a");
  head = some [];
  body = none;
  ssl_ctx = false;
  cookies = blank_cookies;
}

abbrev ready : ℕ → Round
ready n = record { ret = pos 1; eintr = false; reading = gives n }

-- A server that sends a text, of which the reading loops get the first byte and then the rest.
abbrev serves : Bytes → Conn
serves text = record { calls = (ready 1 ∷ []) ∷ (ready 200 ∷ []) ∷ []; incoming = text }

abbrev accepts : Bytes → Attempt
accepts text = record {
  socket = true;
  connect = record { ret = pos 0; in_progress = false };
  selects = record { ret = pos 1; in_progress = false } ∷ [];
  so_error = 0;
  conn = serves text;
}

abbrev moved : Bytes
moved = codes "HTTP/1.0 302 Found\nLocation: /b\n\n"

abbrev missing : Bytes
missing = codes "HTTP/1.0 404 Not Found\nAge: 1\n\n"

abbrev world : World
world = record {
  cache = empty;
  attempts = accepts moved ∷ accepts missing ∷ [];
  ticks = 0;
  sent = [];
}

http_get-Sends_example : Always (Sends 11 world) (http_get outside request world)
http_get-Sends_example = http_get-Sends outside request world

http_handle_response_fuel_example :
    http_handle_response outside 11 request (serves moved) world
    ≡ http_handle_response outside 15 request (serves moved) world
http_handle_response_fuel_example =
    http_handle_response_fuel outside 11 15 request (serves moved) world (omega arith) (omega arith)
      (omega arith) (omega arith)

abbrev code_and_requests : Ran (ℤ × HttpRequest × World) → Option (ℤ × ℕ × ℕ)
code_and_requests (returns (ret, req, w)) = some (ret, req.redirects, length w.sent)
code_and_requests other = none

-- The redirect to another path of the host takes a second request, on a new connection.
redirected : code_and_requests (http_get outside request world) ≡ some (pos 404, 1, 2)
unfolding http_get request_with http_connect select_loop get_request cookies_strdup
    http_handle_response handle_response read_to_buffer read_loop read_header strstr c_string
    status_of parse_cstring atoi isspace skip_space handle_redirect get_header_dup header_type
    strrchr starts_with starts_with_nocase spaces copy_value read_lines redirect_target url2http
    http_req_dup headbody_dup http_repath resolve_cached answer is_cached cache_itest add_cache
    streq time_difference time_sum decimal hreq_transform
redirected = refl
