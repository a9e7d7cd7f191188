-- ===== src/Http/Body/Limit.antt =====
-- src/net-modules/http.c: the limit of a body, for all the ways to read one.
use freenote_probe.Base.{
  ℕ, ◌+◌, ◌-◌, ◌%◌, ◌≤◌, Bool, true, false, Option, none, some, List, [], ◌∷◌, ◌++◌, arith,
  if◌then◌else◌, ltb, length, replicate, length-append, length-replicate, Bool-cases, inl, inr,
}
use freenote_probe.CString.{Bytes, codes, atoi, starts_with_nocase, c_string}
use freenote_probe.Ran.{returns, faults, ◌>>=◌, Always, Always->>=, Always-then}
use freenote_probe.HeaderParse.{get_header_dup, is_html}
use freenote_probe.Http.{Round, read_to_buffer, read_to_buffer_0, http_read_size}
use freenote_probe.Http.Chunked.{Body, unchunk_chunked_body}
use freenote_probe.Http.Chunked.Size.{Fits, unchunk_chunked_body-Fits}
use freenote_probe.Http.Body.{
  u32_mod, u32_of, http_body_limit, Conn, read_with, Received, append_body, behead_http_req,
  Inflated, whole,
}
use freenote_probe.Http.Body.Chunks.{chunks_of, first_read, read_chunked_body_bin}
use freenote_probe.Http.Body.Pages.{
  is_inflatable, Page, no_body, inflate_named, unchunk, http_read_chunked_body, until_close,
  http_read_length_unknown, at_most_limit, drop_rest, of_length, http_read_body_keep, drop_length,
  http_read_body_discard, http_read_body, discard_loop,
}
use freenote_probe.Http.Body.Bounds.{
  most, http_head_size, Small, SmallFirst, behead_http_req-Small, append_body-Small,
  http_inflate-Fits, chunk_loop-Small,
}

abbrev pub IsLimited : Option Body → Type 0
IsLimited = Fits most

abbrev Limited : Page → Type 0
Limited p = IsLimited p.body

chunks_of-Small :
    (keep : Bool) (r : Received) (conn : Conn) → Small r → Always SmallFirst (chunks_of keep r conn)
chunks_of-Small keep r conn h = elim (Bool-cases (ltb (http_read_size + 1) (length r.body))) [
  | inl t ↦ rw t tt
  | inr t ↦ rw t (chunk_loop-Small keep conn.calls http_read_size r.body r conn.incoming h)
]

first_read-Small :
    (keep : Bool) (r : Received) (calls : List (List Round)) (incoming body : Bytes)
    → Small r
    → Always SmallFirst (first_read keep r calls incoming body)
first_read-Small keep r calls incoming [] h =
    Always-then SmallFirst (read_with read_to_buffer_0 http_read_size incoming calls) _
      λ (piece, after).
        Always->>= Small SmallFirst (append_body r piece) _ (append_body-Small r piece h.1)
          λ r2 h2. chunks_of-Small keep r2 after h2
first_read-Small keep r calls incoming (x ∷ body) h =
    chunks_of-Small keep r (record { calls = calls; incoming = incoming }) h

read_chunked_body_bin-Small :
    (keep : Bool) (body : Option Body) (head : Bytes) (conn : Conn)
    → length head ≤ http_head_size
    → Always SmallFirst (read_chunked_body_bin keep body head conn)
unfolding read_chunked_body_bin
read_chunked_body_bin-Small keep body head conn h =
    Always->>= Small SmallFirst (behead_http_req body head (http_read_size + 1)) _
      (behead_http_req-Small body head (http_read_size + 1) h (omega arith))
      λ r hr. first_read-Small keep r conn.calls conn.incoming r.body hr

module _ (zlib : Bytes → Body → Option (List Inflated)) (junk : Bool) where
  inflate_named-IsLimited :
      (encoding : Option Bytes) (body : Body)
      → IsLimited (some body)
      → Always IsLimited (inflate_named zlib junk encoding body)
  inflate_named-IsLimited none body h = h
  inflate_named-IsLimited (some encoding) body h = elim (Bool-cases (is_inflatable encoding)) [
    | inl t ↦ rw t (http_inflate-Fits zlib encoding body)
    | inr t ↦ rw t h
  ]

  unchunk-IsLimited : (r : Received) → Small r → Always (λ b. IsLimited (some b)) (unchunk r)
  unchunk-IsLimited r (hb, hr) =
      result (unchunk_chunked_body memory (length r.body))
        (unchunk_chunked_body-Fits memory (length r.body))
    where
      memory : Bytes
      memory = r.body ++ replicate (r.room - length r.body) 0

      result :
          (o : Option Body)
          → Fits (length (r.body ++ replicate (r.room - length r.body) 0)) o
          → Always (λ b. IsLimited (some b)) (elim o [ none ↦ faults | some b ↦ returns b ])
      result none h = tt
      result (some b) h =
          let size : length (r.body ++ replicate (r.room - length r.body) 0) ≤ most = omega (
            arith,
            length-append {0} r.body (replicate (r.room - length r.body) 0),
            length-replicate {0} {A = ℕ} (r.room - length r.body) 0,
          ) in
          (omega (arith, size), omega (arith, size))

  http_read_chunked_body-IsLimited :
      (body : Option Body) (head : Bytes) (conn : Conn)
      → length head ≤ http_head_size
      → Always Limited (http_read_chunked_body zlib junk true body head conn)
  unfolding http_read_chunked_body
  http_read_chunked_body-IsLimited body head conn h =
      Always-then Limited (get_header_dup junk (codes "Content-Encoding") (c_string head)) _
        λ encoding.
          Always->>= SmallFirst Limited (read_chunked_body_bin true body head conn) _
            (read_chunked_body_bin-Small true body head conn h)
            λ (r, after) hr.
              Always->>= (λ b. IsLimited (some b)) Limited (unchunk r) _ (unchunk-IsLimited r hr)
                λ plain hp.
                  Always->>= IsLimited Limited (inflate_named zlib junk encoding plain) _
                    (inflate_named-IsLimited encoding plain hp) λ b hb. hb

  until_close-IsLimited :
      (body : Option Body) (head : Bytes) (conn : Conn)
      → length head ≤ http_head_size
      → Always Limited (until_close zlib junk body head conn)
  until_close-IsLimited body head conn h =
      Always-then Limited (get_header_dup junk (codes "Connection") (c_string head)) _ λ close.
        Always-then Limited (behead_http_req body head (length head)) _ λ r.
          elim (Bool-cases (ltb http_body_limit (length r.body))) [
            | inl t ↦ rw t tt
            | inr t ↦ rw t (
                Always-then Limited
                  (read_with read_to_buffer (http_body_limit - length r.body) conn.incoming
                    conn.calls)
                  _
                  λ (piece, after).
                    Always->>= Small Limited
                      (append_body (record r { room = http_body_limit + 1 }) piece) _
                      (append_body-Small (record r { room = http_body_limit + 1 }) piece
                        (omega arith))
                      λ r2 h2. (h2.0, h2.0))
          ]

  http_read_length_unknown-IsLimited :
      (body : Option Body) (head : Bytes) (conn : Conn)
      → length head ≤ http_head_size
      → IsLimited body
      → Always Limited (http_read_length_unknown zlib junk true body head conn)
  unfolding http_read_length_unknown
  http_read_length_unknown-IsLimited body head conn h hb =
      Always-then Limited (get_header_dup junk (codes "Transfer-Encoding") (c_string head)) _ named
    where
      named :
          (o : Option Bytes)
          → Always Limited (elim o [
            | none ↦ until_close zlib junk body head conn
            | some e ↦
                if starts_with_nocase e (codes "chunked")
                then http_read_chunked_body zlib junk true body head conn
                else returns (record { head = head; body = body; conn = conn })
          ])
      named none = until_close-IsLimited body head conn h
      named (some e) = elim (Bool-cases (starts_with_nocase e (codes "chunked"))) [
        | inl t ↦ rw t (http_read_chunked_body-IsLimited body head conn h)
        | inr t ↦ rw t hb
      ]

  of_length-IsLimited :
      (total : ℕ) (body : Option Body) (head : Bytes) (conn : Conn)
      → length head ≤ http_head_size
      → Always Limited (of_length zlib junk total body head conn)
  of_length-IsLimited total body head conn h =
      let len = at_most_limit total in
      let small : len ≤ http_body_limit = ground arith in
      Always->>= Small Limited (behead_http_req body head len) _
        (behead_http_req-Small body head len h small)
        λ r hr.
          Always-then Limited
            (read_with read_to_buffer ((len + u32_mod - length r.body % u32_mod) % u32_mod)
              conn.incoming conn.calls)
            _
            λ (piece, after).
              Always->>= Small Limited (append_body r piece) _ (append_body-Small r piece hr.1)
                λ r2 h2. Always-then Limited (drop_rest total after) _ λ last.
                  Always-then Limited
                    (get_header_dup junk (codes "Content-Encoding") (c_string r2.head)) _
                    λ encoding.
                      Always->>= IsLimited Limited
                        (inflate_named zlib junk encoding (whole r2.body)) _
                        (inflate_named-IsLimited encoding (whole r2.body) (h2.0, h2.0)) λ b hb. hb

  http_read_body_keep-IsLimited :
      (body : Option Body) (head : Bytes) (conn : Conn)
      → length head ≤ http_head_size
      → IsLimited body
      → Always Limited (http_read_body_keep zlib junk body head conn)
  unfolding http_read_body_keep
  http_read_body_keep-IsLimited body head conn h hb =
      Always-then Limited (get_header_dup junk (codes "Content-Length") (c_string head)) _ sized
    where
      sized :
          (o : Option Bytes)
          → Always Limited (elim o [
            | none ↦ http_read_length_unknown zlib junk true body head conn
            | some n ↦ of_length zlib junk (u32_of (atoi n)) body head conn
          ])
      sized none = http_read_length_unknown-IsLimited body head conn h hb
      sized (some n) = of_length-IsLimited (u32_of (atoi n)) body head conn h

  http_read_body_discard-IsLimited :
      (body : Option Body) (head : Bytes) (conn : Conn)
      → Always Limited (http_read_body_discard zlib junk body head conn)
  unfolding http_read_body_discard
  http_read_body_discard-IsLimited body head conn =
      Always-then Limited (get_header_dup junk (codes "Content-Length") (c_string head)) _ sized
    where
      sized :
          (o : Option Bytes)
          → Always Limited (elim o [
            | none ↦
                http_read_length_unknown zlib junk false body head conn >>= λ p. returns (no_body p)
            | some n ↦ drop_length (u32_of (atoi n)) body head conn
          ])
      sized none =
          Always-then Limited (http_read_length_unknown zlib junk false body head conn) _ λ p. tt
      sized (some n) = Always-then Limited (behead_http_req body head (u32_of (atoi n))) _ λ r.
          Always-then Limited
            (discard_loop conn.calls (length r.body) (u32_of (atoi n)) conn.incoming) _ λ last. tt

  -- Whatever a server sends, whichever way its body is read and whatever zlib makes of it: the body
  -- that is left after `http_read_body` has at most one byte more than HTTP_BODY_LIMIT, if the header
  -- has no more bytes than HTTP_HEAD_SIZE and there was no larger body before.
  pub http_read_body-IsLimited :
      (body : Option Body) (head : Bytes) (conn : Conn)
      → length head ≤ http_head_size
      → IsLimited body
      → Always (λ (p : Page). IsLimited p.body) (http_read_body zlib junk body head conn)
  unfolding http_read_body
  http_read_body-IsLimited body head conn h hb =
      Always-then Limited (is_html junk (some (c_string head))) _ λ html. elim (Bool-cases html) [
        | inl t ↦ rw t (http_read_body_keep-IsLimited body head conn h hb)
        | inr t ↦ rw t (http_read_body_discard-IsLimited body head conn)
      ]
