-- ===== src/Http/Body/Length.antt =====
-- src/net-modules/http.c: a body whose length the header names.
use freenote_probe.Base.{
  ℕ, ◌+◌, ◌-◌, ◌%◌, ◌≤◌, ◌<◌, Bool, true, false, Option, none, some, List, [], ◌∷◌, ◌++◌, ◌≡◌, refl,
  sym, ap, ◌∙◌, arith, ltb, length, take, drop, All, append_assoc, length-append, take-length,
  drop-length, drop_past, take_add, length-take_le,
}
use freenote_probe.CString.{Bytes, codes, atoi, strstr, c_string}
use freenote_probe.CString.Search.{c_string-append, strstr-extend, Lacks}
use freenote_probe.Ran.{returns, faults}
use freenote_probe.HeaderParse.{get_header_dup}
use freenote_probe.Http.{Round}
use freenote_probe.Http.Fills.{IsReady, read_to_buffer-IsReady}
use freenote_probe.Http.Chunked.{Body}
use freenote_probe.Http.Body.{
  u32_mod, u32_of, http_body_limit, Conn, append_body, neck, behead_http_req, Inflated, whole,
}
use freenote_probe.Http.Body.Pages.{http_read_body_keep}

-- "\r\n\r\n"
abbrev pub crlf2 : Bytes
crlf2 = 13 ∷ 10 ∷ 13 ∷ 10 ∷ []

-- A text `h` with an empty line behind it has no empty line before.
pub record IsHead (h : Bytes) : Type 0 where
  pub text : Lacks 0 h
  pub one_neck : strstr (h ++ crlf2) crlf2 ≡ some crlf2

-- The body begins behind the empty line.
neck-IsHead : (h body : Bytes) → IsHead h → neck (h ++ crlf2 ++ body) ≡ some (length h + 4)
unfolding neck c_string
neck-IsHead h body head =
    let text : c_string (h ++ crlf2 ++ body) ≡ h ++ (crlf2 ++ c_string body) =
      ap c_string (append_assoc h crlf2 body) ∙ c_string-append h (crlf2 ++ body) head.text in
    let at : length (h ++ (crlf2 ++ c_string body)) - length (crlf2 ++ c_string body) + 4
        ≡ length h + 4 =
      omega (arith, length-append {0} h (crlf2 ++ c_string body)) in
    rw text (rw (strstr-extend h (c_string body) 13 (10 ∷ 13 ∷ 10 ∷ []) head.one_neck) (ap some at))

behead_http_req-IsHead :
    (h body : Bytes) (len : ℕ)
    → IsHead h
    → length body ≤ len
    → len ≤ http_body_limit
    → behead_http_req none (h ++ crlf2 ++ body) len
      ≡ returns (record { head = h ++ crlf2; body = body; room = len + 1 })
unfolding behead_http_req
behead_http_req-IsHead h body len head fits small =
    let neck_at : length (h ++ crlf2) ≡ length h + 4 = length-append h crlf2 in
    let room : (len + 1) % u32_mod ≡ len + 1 = omega arith in
    let enough : ltb (len + 1) (length body) ≡ false = ground arith in
    let behind : drop (length h + 4) (h ++ crlf2 ++ body) ≡ body =
      ap (drop (length h + 4)) (append_assoc h crlf2 body) ∙ drop_past h (crlf2 ++ body) 4 in
    let before : take (length h + 4) (h ++ crlf2 ++ body) ≡ h ++ crlf2 =
      ap (λ n. take n (h ++ crlf2 ++ body)) (sym neck_at) ∙ take-length (h ++ crlf2) body in
    rw (neck-IsHead h body head) (rw behind (rw before (rw room (rw enough refl))))

take_through : (p q : Bytes) (n : ℕ) → length p ≤ n → p ++ take (n - length p) q ≡ take n (p ++ q)
take_through p q n h =
    let parts : length p + (n - length p) ≡ n = omega arith in
    sym (
      ap (λ k. take k (p ++ q)) (sym parts)
      ∙ take_add (length p) (n - length p) (p ++ q)
      ∙ ap (λ s. s ++ take (n - length p) (drop (length p) (p ++ q))) (take-length p q)
      ∙ ap (λ s. p ++ take (n - length p) s) (drop-length p q))

module _ (zlib : Bytes → Body → Option (List Inflated)) (junk : Bool) where
  -- A header names a length of `total` bytes, which is not above the limit, and no encoding. If the
  -- bytes that were read with it are not more than that, and the connection delivers, then the body is
  -- exactly the next `total` bytes of what the server sent, wherever the header ended in what was read,
  -- and the bytes behind them stay on their way.
  pub http_read_body_keep-length :
      (h body incoming size : Bytes) (rounds : List Round) (calls : List (List Round)) (total : ℕ)
      → IsHead h
      → get_header_dup junk (codes "Content-Length") (c_string (h ++ crlf2 ++ body))
        ≡ returns (some size)
      → get_header_dup junk (codes "Content-Encoding") (c_string (h ++ crlf2)) ≡ returns none
      → u32_of (atoi size) ≡ total
      → total ≤ http_body_limit
      → length body ≤ total
      → total ≤ length (body ++ incoming)
      → All IsReady rounds
      → total ≤ length rounds
      → http_read_body_keep zlib junk none
          (h ++ crlf2 ++ body)
          (record { calls = rounds ∷ calls; incoming = incoming })
        ≡ returns (record {
          head = h ++ crlf2;
          body = some (whole (take total (body ++ incoming)));
          conn = record { calls = calls; incoming = drop (total - length body) incoming };
        })
  unfolding http_read_body_keep append_body
  http_read_body_keep-length h body incoming size rounds calls total head sized plain named small
        fits there ready enough =
      let within : ltb http_body_limit total ≡ false = ground arith in
      let left : (total + u32_mod - length body % u32_mod) % u32_mod ≡ total - length body =
        omega arith in
      let rest_there : total - length body ≤ length incoming =
        omega (arith, length-append {0} body incoming) in
      let room : ltb (total + 1) (length body + length (take (total - length body) incoming))
          ≡ false =
        ground (arith, length-take_le (total - length body) incoming rest_there) in
      let all : ltb total total ≡ false = ground arith in
      rw sized (
        rw named (
          rw within (
            rw (behead_http_req-IsHead h body total head fits small) (
              rw left (
                rw
                  (read_to_buffer-IsReady rounds (total - length body) incoming ready (omega arith)
                    rest_there)
                  (rw room (
                    rw all (
                      rw plain (
                        ap
                          (λ b. returns (record {
                            head = h ++ crlf2;
                            body = some (whole b);
                            conn = record {
                              calls = calls;
                              incoming = drop (total - length body) incoming;
                            };
                          }))
                          (take_through body incoming total fits))))))))))

  -- Where the header names a length that is not above the limit, and two bytes more than that or
  -- still more were read together with the header, they are copied beyond the memory of the body.
  pub http_read_body_keep_overrun :
      (h body size : Bytes) (conn : Conn) (total : ℕ)
      → IsHead h
      → get_header_dup junk (codes "Content-Length") (c_string (h ++ crlf2 ++ body))
        ≡ returns (some size)
      → u32_of (atoi size) ≡ total
      → total ≤ http_body_limit
      → total + 1 < length body
      → http_read_body_keep zlib junk none (h ++ crlf2 ++ body) conn ≡ faults
  unfolding http_read_body_keep behead_http_req
  http_read_body_keep_overrun h body size conn total head sized named small more =
      let within : ltb http_body_limit total ≡ false = ground arith in
      let room : (total + 1) % u32_mod ≡ total + 1 = omega arith in
      let short : ltb (total + 1) (length body) ≡ true = ground arith in
      let behind : drop (length h + 4) (h ++ crlf2 ++ body) ≡ body =
        ap (drop (length h + 4)) (append_assoc h crlf2 body) ∙ drop_past h (crlf2 ++ body) 4 in
      rw sized
        (rw named (rw within (rw (neck-IsHead h body head) (rw behind (rw room (rw short refl))))))
