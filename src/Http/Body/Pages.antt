-- ===== src/Http/Body/Pages.antt =====
-- src/net-modules/http.c: which of the ways to read a body is taken, and whether it is kept. The
-- section's parameters are what zlib does, and what the variable `cr` of src/header-parse.c holds
-- before it is written.
use freenote_probe.Base.{
  ℕ, zero, suc, ◌+◌, ◌-◌, ◌%◌, Bool, true, false, ◌||◌, Option, none, some, List, [], ◌∷◌, ◌++◌,
  if◌then◌else◌, ltb, length,
}
use freenote_probe.CString.{Bytes, codes, atoi, streq, tolower, starts_with_nocase, c_string}
use freenote_probe.Ran.{Ran, returns, faults, waits, ◌>>=◌}
use freenote_probe.HeaderParse.{get_header_dup, is_html}
use freenote_probe.Http.{Round, read_to_buffer, http_read_size}
use freenote_probe.Http.Chunked.{Body, unchunk_chunked_body}
use freenote_probe.Http.Body.{
  u32_mod, u32_of, http_body_limit, Conn, read_with, Received, append_body, behead_http_req,
  Inflated, http_inflate, whole,
}
use freenote_probe.Http.Body.Chunks.{read_chunked_body_bin}
use freenote_probe.Base.{map, replicate}

-- !strcasecmp(s, "gzip") || !strcasecmp(s, "deflate")
unfoldable pub is_inflatable : Bytes → Bool
is_inflatable s = streq (map tolower s) (codes "gzip") || streq (map tolower s) (codes "deflate")

-- The head of the request and its body afterwards, and the connection.
pub record Page : Type 0 where
  pub head : Bytes
  pub body : Option Body
  pub conn : Conn

abbrev pub kept : Received → Conn → Page
kept r conn = record { head = r.head; body = some (whole r.body); conn = conn }

-- Pieces of the size of the buffer, until all of it came or nothing comes.
abbrev pub discard_rest : (ℕ → Bytes → Ran Conn) → ℕ → List (List Round) → Bytes → Conn → Ran Conn
discard_rest go len calls [] after = returns after
discard_rest go len calls (x ∷ piece) after = go (len - suc (length piece)) after.incoming

unfoldable pub http_read_discard : List (List Round) → ℕ → Bytes → Ran Conn
http_read_discard calls zero incoming = returns (record { calls = calls; incoming = incoming })
http_read_discard [] (suc len) incoming = waits
http_read_discard (rounds ∷ calls) (suc len) incoming =
    read_with read_to_buffer (if ltb (suc len) http_read_size then suc len else http_read_size)
      incoming (rounds ∷ calls)
    >>= λ (piece, after).
        discard_rest (λ len2 incoming2. http_read_discard calls len2 incoming2) (suc len) calls
          piece after

-- What the loop of http_read_body_discard asks for; it subtracts the length of the body each time.
abbrev pub wanted : ℕ → ℕ → ℕ
wanted len body_len =
    let want = (len + u32_mod - body_len % u32_mod) % u32_mod in
    if ltb http_read_size want
    then (http_read_size + u32_mod - body_len % u32_mod) % u32_mod
    else want

abbrev pub discard_more : (ℕ → Bytes → Ran Conn) → ℕ → Bytes → Conn → Ran Conn
discard_more go len [] after = returns after
discard_more go len (x ∷ piece) after =
    if ltb http_read_size (suc (length piece))
    then faults
    else go ((len + u32_mod - suc (length piece)) % u32_mod) after.incoming

unfoldable pub discard_loop : List (List Round) → ℕ → ℕ → Bytes → Ran Conn
discard_loop calls body_len zero incoming = returns (record { calls = calls; incoming = incoming })
discard_loop [] body_len (suc len) incoming = waits
discard_loop (rounds ∷ calls) body_len (suc len) incoming =
    read_with read_to_buffer (wanted (suc len) body_len) incoming (rounds ∷ calls)
    >>= λ (piece, after).
        discard_more (λ len2 incoming2. discard_loop calls body_len len2 incoming2) (suc len) piece
          after

-- The memory behind the body is zero.
abbrev pub unchunk : Received → Ran Body
unchunk r =
    elim (unchunk_chunked_body (r.body ++ replicate (r.room - length r.body) 0) (length r.body)) [
      | none ↦ faults
      | some body ↦ returns body
    ]

abbrev pub at_most_limit : ℕ → ℕ
at_most_limit total = if ltb http_body_limit total then http_body_limit else total

-- The rest of a body that is longer than the limit is read and dropped.
abbrev pub drop_rest : ℕ → Conn → Ran Conn
drop_rest total conn =
    if ltb (at_most_limit total) total
    then http_read_discard conn.calls (total - at_most_limit total) conn.incoming
    else returns conn

abbrev pub drop_length : ℕ → Option Body → Bytes → Conn → Ran Page
drop_length len body head conn = behead_http_req body head len >>= λ r.
    discard_loop conn.calls (length r.body) len conn.incoming >>= λ last.
    returns (record { head = r.head; body = none; conn = last })

abbrev pub no_body : Page → Page
no_body p = record p { body = none }

module _ (zlib : Bytes → Body → Option (List Inflated)) (junk : Bool) where
  -- A body that names an encoding is inflated.
  abbrev pub inflate_named : Option Bytes → Body → Ran (Option Body)
  inflate_named none body = returns (some body)
  inflate_named (some encoding) body =
      if is_inflatable encoding then http_inflate zlib encoding body else returns (some body)

  unfoldable pub http_read_chunked_body : Bool → Option Body → Bytes → Conn → Ran Page
  http_read_chunked_body keep body head conn =
      get_header_dup junk (codes "Content-Encoding") (c_string head) >>= λ encoding.
      read_chunked_body_bin keep body head conn >>= λ (r, after).
      if keep
      then (unchunk r >>= λ plain. inflate_named encoding plain >>= λ b.
          returns (record { head = r.head; body = b; conn = after }))
      else returns (kept r after)

  -- The server closes the connection, so all that comes up to the limit is read.
  abbrev pub until_close : Option Body → Bytes → Conn → Ran Page
  until_close body head conn = get_header_dup junk (codes "Connection") (c_string head) >>= λ close.
      behead_http_req body head (length head) >>= λ r.
      if ltb http_body_limit (length r.body)
      then faults
      else (read_with read_to_buffer (http_body_limit - length r.body) conn.incoming conn.calls
          >>= λ (piece, after).
              append_body (record r { room = http_body_limit + 1 }) piece >>= λ r2.
              returns (kept r2 after))

  -- Another transfer encoding than "chunked" leaves everything unread.
  unfoldable pub http_read_length_unknown : Bool → Option Body → Bytes → Conn → Ran Page
  http_read_length_unknown keep body head conn =
      get_header_dup junk (codes "Transfer-Encoding") (c_string head) >>= λ encoding.
      elim encoding [
        | none ↦ until_close body head conn
        | some e ↦
            if starts_with_nocase e (codes "chunked")
            then http_read_chunked_body keep body head conn
            else returns (record { head = head; body = body; conn = conn })
      ]

  -- A body whose length the header names.
  abbrev pub of_length : ℕ → Option Body → Bytes → Conn → Ran Page
  of_length total body head conn = behead_http_req body head (at_most_limit total) >>= λ r.
      read_with read_to_buffer ((at_most_limit total + u32_mod - length r.body % u32_mod) % u32_mod)
        conn.incoming conn.calls
      >>= λ (piece, after). append_body r piece >>= λ r2. drop_rest total after >>= λ last.
          get_header_dup junk (codes "Content-Encoding") (c_string r2.head) >>= λ encoding.
          inflate_named encoding (whole r2.body) >>= λ b.
          returns (record { head = r2.head; body = b; conn = last })

  unfoldable pub http_read_body_keep : Option Body → Bytes → Conn → Ran Page
  http_read_body_keep body head conn =
      get_header_dup junk (codes "Content-Length") (c_string head) >>= λ size. elim size [
        | none ↦ http_read_length_unknown true body head conn
        | some n ↦ of_length (u32_of (atoi n)) body head conn
      ]

  unfoldable pub http_read_body_discard : Option Body → Bytes → Conn → Ran Page
  http_read_body_discard body head conn =
      get_header_dup junk (codes "Content-Length") (c_string head) >>= λ size. elim size [
        | none ↦ http_read_length_unknown false body head conn >>= λ p. returns (no_body p)
        | some n ↦ drop_length (u32_of (atoi n)) body head conn
      ]

  unfoldable pub http_read_body : Option Body → Bytes → Conn → Ran Page
  http_read_body body head conn = is_html junk (some (c_string head)) >>= λ html.
      if html then http_read_body_keep body head conn else http_read_body_discard body head conn
