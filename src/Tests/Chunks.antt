-- ===== src/Tests/Chunks.antt =====
-- src/net-modules/http.c: chunked bodies.
use freenote_probe.Base.{some, none, [], ◌∷◌, ◌++◌, ◌≡◌, refl, arith}
use freenote_probe.CString.{Bytes, codes, hex_value}
use freenote_probe.Http.Chunked.{
  unchunk_chunked_body, unchunk_loop, run, strtoul16, hex_number, chunk_len,
}
use freenote_probe.Http.Chunked.RoundTrip.{IsSize, chunk, last_chunk, unchunk_chunked_body-Chunks}
use freenote_probe.Http.Chunked.Overread.{unchunk_chunked_body_cut}

abbrev crlf : Bytes
crlf = 13 ∷ 10 ∷ []

three-IsSize : IsSize (codes "3") 3
unfolding hex_number hex_value
three-IsSize = record { some_digit = omega arith; digits = (refl, tt); value = refl }

zero-IsSize : IsSize (codes "0") 0
unfolding hex_number hex_value
zero-IsSize = record { some_digit = omega arith; digits = (refl, tt); value = refl }

eight-IsSize : IsSize (codes "8") 8
unfolding hex_number hex_value
eight-IsSize = record { some_digit = omega arith; digits = (refl, tt); value = refl }

unchunk_chunked_body-Chunks_example :
    unchunk_chunked_body
      ((codes "3" ++ crlf ++ codes "abc" ++ crlf ++ codes "0" ++ crlf ++ crlf) ++ 0 ∷ [])
      13
    ≡ some (record { bytes = codes "abc"; body_len = 3 })
unchunk_chunked_body-Chunks_example =
    unchunk_chunked_body-Chunks (0 ∷ [])
      (chunk (codes "3") (codes "abc") three-IsSize (omega arith)
        (last_chunk (codes "0") crlf zero-IsSize))
      (omega arith)

unchunk_chunked_body_cut_example :
    unchunk_chunked_body ((codes "8" ++ crlf ++ codes "abcdef") ++ 0 ∷ []) 9 ≡ none
unchunk_chunked_body_cut_example =
    unchunk_chunked_body_cut (codes "8") (codes "abcdef") 8 eight-IsSize (omega arith) (omega arith)
      (omega arith)

-- A text without a chunk leaves no byte, and the length of what was skipped.
no_chunk : unchunk_chunked_body (codes "xyz") 3 ≡ some (record { bytes = []; body_len = 2 })
unfolding unchunk_chunked_body unchunk_loop run hex_value
no_chunk = refl

-- A body of length 0 is read past the end of its memory, here of one byte.
empty_body : unchunk_chunked_body (0 ∷ []) 0 ≡ none
unfolding unchunk_chunked_body unchunk_loop run hex_value
empty_body = refl

-- The largest size wraps in the guard, once something was copied.
wrapped :
    unchunk_chunked_body
      (codes "1" ++ crlf ++ codes "a" ++ crlf ++ codes "ffffffffffffffff" ++ crlf ++ codes "bc")
      25
    ≡ none
unfolding unchunk_chunked_body unchunk_loop run hex_value strtoul16 hex_number chunk_len
wrapped = refl
