-- ===== src/Http/Text.antt =====
-- src/net-modules/http.c: the texts of requests, as `send_http_get_request` and
-- `send_http_post_request_str` print them. A null pointer that is printed is `none`.
use freenote_probe.Base.{
  ℕ, ◌-◌, Option, none, some, [], ◌∷◌, ◌++◌, ◌>>=◌, ltb, if◌then◌else◌, length, take,
}
use freenote_probe.Base.Int.{pos}
use freenote_probe.CString.{Bytes, codes}
use freenote_probe.CString.Decimal.{decimal}
use freenote_probe.Cookie.{cookies_strdup}
use freenote_probe.Http.Request.{HttpRequest}

abbrev crlf : Bytes
crlf = 13 ∷ 10 ∷ []

abbrev pub http_head_size : ℕ
http_head_size = 0x40000

-- snprintf(s, n, ...) leaves the first n - 1 bytes and a terminator.
abbrev pub snprintf : ℕ → Bytes → Bytes
snprintf n text = take (n - 1) text

-- "METHOD url HTTP/1.v", and the lines for the host and the program.
abbrev pub first_lines : Bytes → Bytes → ℕ → Bytes → Bytes → Bytes
first_lines method url version hostname user_agent =
    method
    ++ (url
        ++ (codes " HTTP/1."
            ++ (decimal (pos version)
                ++ (crlf
                    ++ (codes "Host: "
                        ++ (hostname
                            ++ (crlf ++ (codes "User-Agent: " ++ (user_agent ++ crlf)))))))))

abbrev pub or_empty : Option Bytes → Bytes
or_empty none = []
or_empty (some s) = s

abbrev pub keep_alive : ℕ → Bytes
keep_alive version = if ltb 0 version then codes "Connection: keep-alive" ++ crlf else []

-- The request that is sent. `none` is a fault.
unfoldable pub get_request : Bytes → HttpRequest → Option Bytes
get_request user_agent req = cookies_strdup req.cookies >>= λ cookies. req.url >>= λ url.
    req.hostname >>= λ hostname. some (
      snprintf (http_head_size - 1) (
        first_lines (codes "GET ") url req.version hostname user_agent
        ++ (keep_alive req.version
            ++ (codes "Accept-Encoding: gzip,deflate" ++ (crlf ++ (or_empty cookies ++ crlf))))))

abbrev pub post_lines : Bytes → Bytes → ℕ → Bytes → Bytes → Bytes
post_lines user_agent url version hostname body =
    first_lines (codes "POST ") url version hostname user_agent
    ++ (codes "Content-Type: application/x-www-form-urlencoded"
        ++ (crlf ++ (codes "Content-Length: " ++ (decimal (pos (length body)) ++ (crlf ++ crlf)))))

-- The head of a POST request, which its body `str` follows.
unfoldable pub post_request_str : Bytes → HttpRequest → Bytes → Option Bytes
post_request_str user_agent req str = req.url >>= λ url. req.hostname >>= λ hostname.
    some (snprintf (http_head_size - 1) (post_lines user_agent url req.version hostname str))
