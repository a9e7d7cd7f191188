-- ===== src/Tests/Bodies.antt =====
-- src/net-modules/http.c: bodies of concrete responses.
use freenote_probe.Base.{ℕ, false, Option, none, some, List, [], ◌∷◌, ◌++◌, ◌≡◌, refl, arith}
use freenote_probe.Base.Int.{pos}
use freenote_probe.CString.{
  Bytes, codes, strchr, strstr, strrchr, starts_with, starts_with_nocase, isspace, c_string, atoi,
  skip_space, hex_value,
}
use freenote_probe.CString.Search.{Lacks-strchr}
use freenote_probe.Ran.{returns, faults, Always}
use freenote_probe.HeaderParse.{
  header_type, spaces, copy_value, read_lines, get_header_dup, is_html,
}
use freenote_probe.Http.{Round, gives}
use freenote_probe.Http.Chunked.{
  Body, unchunk_chunked_body, unchunk_loop, run, strtoul16, hex_number, chunk_len,
}
use freenote_probe.Http.Body.{
  Inflated, goes_on, ends, whole, neck, behead_http_req, http_inflate, inflate_loop,
}
use freenote_probe.Http.Body.Chunks.{
  scan, count_digits, may_be_size, next_len, strtoul, chunk_loop, read_chunked_body_bin,
}
use freenote_probe.Http.Body.Pages.{
  Page, http_read_body, http_read_body_keep, http_read_length_unknown, http_read_chunked_body,
}
use freenote_probe.Http.Body.Length.{
  crlf2, IsHead, http_read_body_keep-length, http_read_body_keep_overrun,
}
use freenote_probe.Http.Body.Limit.{IsLimited, http_read_body-IsLimited}

abbrev ok_head : Bytes
ok_head = codes "HTTP/1.0 200 OK" ++ 13 ∷ 10 ∷ codes "Content-Length: 5"

-- zlib gives one piece for all texts.
abbrev one_piece : Bytes → Body → Option (List Inflated)
one_piece encoding body = some (ends (codes "plain") ∷ [])

abbrev ready : ℕ → Round
ready n = record { ret = pos 1; eintr = false; reading = gives n }

ok_head-IsHead : IsHead ok_head
unfolding strstr starts_with
ok_head-IsHead = record { text = Lacks-strchr ok_head 0 (unfold strchr in refl); one_neck = refl }

http_read_body_keep-length_example :
    http_read_body_keep one_piece false none (ok_head ++ crlf2 ++ codes "ab") (record {
      calls = (ready 2 ∷ ready 9 ∷ ready 1 ∷ ready 1 ∷ ready 1 ∷ []) ∷ [];
      incoming = codes "cdefg";
    })
    ≡ returns (record {
      head = ok_head ++ crlf2;
      body = some (whole (codes "abcde"));
      conn = record { calls = []; incoming = codes "fg" };
    })
unfolding get_header_dup header_type strstr strrchr starts_with starts_with_nocase spaces copy_value
    read_lines isspace c_string atoi
http_read_body_keep-length_example =
    http_read_body_keep-length one_piece false ok_head (codes "ab") (codes "cdefg") (codes "5")
      (ready 2 ∷ ready 9 ∷ ready 1 ∷ ready 1 ∷ ready 1 ∷ []) [] 5 ok_head-IsHead refl refl refl
      (omega arith) (omega arith) (omega arith)
      (
        (0, 1, refl, refl),
        ((0, 8, refl, refl), ((0, 0, refl, refl), ((0, 0, refl, refl), ((0, 0, refl, refl), tt)))),
      )
      (omega arith)

http_read_body_keep_overrun_example :
    http_read_body_keep one_piece false none
      (ok_head ++ crlf2 ++ codes "abcdefg")
      (record { calls = []; incoming = [] })
    ≡ faults
unfolding get_header_dup header_type strstr strrchr starts_with starts_with_nocase spaces copy_value
    read_lines isspace c_string atoi
http_read_body_keep_overrun_example =
    http_read_body_keep_overrun one_piece false ok_head (codes "abcdefg") (codes "5")
      (record { calls = []; incoming = [] }) 5 ok_head-IsHead refl refl (omega arith) (omega arith)

abbrev chunked_head : Bytes
chunked_head =
    codes "HTTP/1.1 200 OK"
    ++ 13 ∷ 10 ∷ codes "Content-type: text/html"
    ++ 13 ∷ 10 ∷ codes "Transfer-Encoding: chunked"

abbrev chunks : Bytes
chunks = codes "3" ++ 13 ∷ 10 ∷ codes "abc" ++ 13 ∷ 10 ∷ codes "0" ++ crlf2

http_read_body-IsLimited_example :
    Always
      (λ (p : Page). IsLimited p.body)
      (http_read_body one_piece false none
        (chunked_head ++ crlf2 ++ chunks)
        (record { calls = []; incoming = codes "x" }))
http_read_body-IsLimited_example =
    http_read_body-IsLimited one_piece false none (chunked_head ++ crlf2 ++ chunks)
      (record { calls = []; incoming = codes "x" }) (omega arith) tt

-- The chunks that came with the header are the whole body.
chunked_page :
    http_read_body one_piece false none
      (chunked_head ++ crlf2 ++ chunks)
      (record { calls = []; incoming = codes "x" })
    ≡ returns (record {
      head = chunked_head ++ crlf2;
      body = some (whole (codes "abc"));
      conn = record { calls = []; incoming = codes "x" };
    })
unfolding http_read_body is_html get_header_dup header_type strstr strrchr starts_with
    starts_with_nocase spaces copy_value read_lines isspace c_string http_read_body_keep
    http_read_length_unknown http_read_chunked_body read_chunked_body_bin behead_http_req neck
    chunk_loop scan count_digits may_be_size next_len strtoul skip_space strtoul16 hex_number
    hex_value unchunk_chunked_body unchunk_loop run chunk_len
chunked_page = refl

-- A compressed body that came in two pieces.
inflated_page :
    http_inflate
      (λ encoding body. some (goes_on (codes "ab") ∷ ends (codes "c") ∷ []))
      (codes "gzip")
      (whole [])
    ≡ returns (some (whole (codes "abc")))
unfolding http_inflate inflate_loop
inflated_page = refl
