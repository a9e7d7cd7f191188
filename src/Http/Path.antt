-- ===== src/Http/Path.antt =====
-- src/net-modules/http.c: `http_repath`, which moves a request to another path, `headbody_dup` and
-- `http_req_dup`. What `dirname` of the C library leaves in its argument is a parameter.
use freenote_probe.Base.{
  ℕ, zero, suc, ◌+◌, Bool, false, not, Option, none, some, [], ◌∷◌, ◌++◌, ◌==◌, ltb, if◌then◌else◌,
  length, drop,
}
use freenote_probe.CString.{Bytes, codes, starts_with}
use freenote_probe.Ran.{Ran, returns, faults}
use freenote_probe.Http.Request.{HttpRequest, blank_cookies, hreq_transform}

abbrev pub max_url_len : ℕ
max_url_len = 2048

-- path[strlen(path) - 1] == '/', which reads in front of an empty path.
unfoldable pub ends_with_slash : Bytes → Option Bool
ends_with_slash [] = none
ends_with_slash (x ∷ []) = some (x == b'/')
ends_with_slash (x ∷ y ∷ s) = ends_with_slash (y ∷ s)

module _ (dirname : Bytes → Bytes) where
  -- The loop over the dots in front; each round takes two bytes at least.
  unfoldable pub skip_dots : ℕ → Bytes → Bytes → Bytes × Bytes
  skip_dots zero path new_path = (path, new_path)
  skip_dots (suc fuel) path new_path =
      let here = skip_dots fuel path (drop 2 new_path) in
      let up = skip_dots fuel (dirname path) (drop 3 new_path) in
      if starts_with new_path (codes "./")
      then here
      else if starts_with new_path (codes "../")
      then up
      else (path, new_path)

  -- strcat(strcat(path, "/"), new_path), into an array of `max_url_len` bytes.
  abbrev pub appended_path : HttpRequest → Bytes × Bytes → Ran HttpRequest
  appended_path req (path, new_path) =
      if ltb (length path + 1 + length new_path) max_url_len
      then returns (hreq_transform req none none none (some (path ++ b'/' ∷ new_path)) none none)
      else faults

  abbrev pub in_directory : HttpRequest → Bytes → Bytes → Bool → Ran HttpRequest
  in_directory req path new_path slash =
      appended_path req
        (skip_dots (length new_path) (if not slash then dirname path else path) new_path)

  abbrev pub relative : HttpRequest → Bytes → Bytes → Option Bool → Ran HttpRequest
  relative req path new_path none = faults
  relative req path new_path (some slash) = in_directory req path new_path slash

  -- The copy of a URL of 2048 bytes or more has no terminator.
  abbrev pub from_url : HttpRequest → Bytes → Option Bytes → Ran HttpRequest
  from_url req new_path none = faults
  from_url req new_path (some url) =
      if ltb (length url) max_url_len
      then relative req url new_path (ends_with_slash url)
      else faults

  -- It returns 0 wherever it returns, as strdup gives a copy.
  unfoldable pub http_repath : HttpRequest → Bytes → Ran HttpRequest
  http_repath req [] = from_url req [] req.url
  http_repath req (c ∷ s) =
      if c == b'/'
      then returns (hreq_transform req none none none (some (c ∷ s)) none none)
      else from_url req (c ∷ s) req.url

-- The copies are of `body_len` and of `head_len` bytes.
abbrev pub dup_head : HttpRequest → Option Bytes → HttpRequest
dup_head dest none = dest
dup_head dest (some head) = record dest { head = some head }

abbrev pub dup_body : HttpRequest → ℕ → Option Bytes → HttpRequest
dup_body dest body_len none = dest
dup_body dest body_len (some body) = record dest { body_len = body_len; body = some body }

unfoldable pub headbody_dup : HttpRequest → HttpRequest → HttpRequest
headbody_dup dest src = dup_head (dup_body dest src.body_len src.body) src.head

-- The cookies are not copied. `http_ssl_init` is OpenSSL's part.
unfoldable pub http_req_dup : (HttpRequest → Option HttpRequest) → HttpRequest → Option HttpRequest
http_req_dup http_ssl_init req =
    let newreq : HttpRequest = record req {
      body_len = 0;
      body = none;
      head = none;
      url = none;
      hostname = none;
      username = req.username;
      password = elim req.username [ none ↦ none | some u ↦ req.password ];
      ssl_ctx = false;
      cookies = blank_cookies;
    } in
    elim (if req.ssl_ctx then http_ssl_init newreq else some newreq) [
      | none ↦ none
      | some r ↦ some (record (headbody_dup r req) { url = req.url; hostname = req.hostname })
    ]
