-- ===== src/Http/Body.antt =====
-- src/net-modules/http.c: how the body of a response is read: behead_http_req, the reads into a
-- buffer, and http_inflate. The reading by chunks is in Http/Body/Chunks, and the choice between the
-- ways to read in Http/Body/Pages.
pub mod Chunks
pub mod Pages
pub mod Bounds
pub mod Length
pub mod Limit
use freenote_probe.Base.{
  ℕ, zero, suc, ◌+◌, ◌-◌, ◌%◌, Bool, true, false, not, ◌&&◌, ◌||◌, Option, none, some, List, [],
  ◌∷◌, ◌++◌, if◌then◌else◌, ◌==◌, ltb, leb, length, take, drop,
}
use freenote_probe.Base.Int.{ℤ, pos, negsuc}
use freenote_probe.CString.{Bytes, strstr, c_string}
use freenote_probe.Ran.{Ran, returns, aborts, faults, waits, ◌>>=◌}
use freenote_probe.Http.{Round, read_to_buffer}
use freenote_probe.Http.Chunked.{Body}

abbrev pub u32_mod : ℕ
u32_mod = 4294967296

abbrev pub u32_of : ℤ → ℕ
u32_of (pos n) = n % u32_mod
u32_of (negsuc n) = u32_mod - 1 - n % u32_mod

abbrev pub http_body_limit : ℕ
http_body_limit = 786432

-- What the calls of the reading loops come to, one list of rounds for each call, and the bytes that
-- are on their way.
pub record Conn : Type 0 where
  pub calls : List (List Round)
  pub incoming : Bytes

-- A reading loop has read some bytes; a loop that still waits, or of which nothing is known, waits.
abbrev pub after_read : List (List Round) → Option (Bytes × Bytes) → Ran (Bytes × Conn)
after_read calls none = waits
after_read calls (some (piece, rest)) = returns (piece, record { calls = calls; incoming = rest })

abbrev pub read_with :
    (List Round → ℕ → Bytes → Option (Bytes × Bytes))
    → ℕ
    → Bytes
    → List (List Round)
    → Ran (Bytes × Conn)
read_with loop len incoming [] = waits
read_with loop len incoming (rounds ∷ calls) = after_read calls (loop rounds len incoming)

-- A header and a body, whose memory has `room` bytes, which are zero behind the body.
pub record Received : Type 0 where
  pub head : Bytes
  pub body : Bytes
  pub room : ℕ

-- The bytes are appended to the body.
unfoldable pub append_body : Received → Bytes → Ran Received
append_body r piece =
    if ltb r.room (length r.body + length piece)
    then faults
    else returns (record r { body = r.body ++ piece })

-- The offset behind the first "\r\n\r\n", or behind the first "\n\n" where there is none.
abbrev pub behind_lflf : Bytes → Option Bytes → Option ℕ
behind_lflf text none = none
behind_lflf text (some q) = some (length text - length q + 2)

abbrev pub behind_crlf : Bytes → Option Bytes → Option ℕ
behind_crlf text none = behind_lflf text (strstr text (10 ∷ 10 ∷ []))
behind_crlf text (some q) = some (length text - length q + 4)

unfoldable pub neck : Bytes → Option ℕ
neck head = behind_crlf (c_string head) (strstr (c_string head) (13 ∷ 10 ∷ 13 ∷ 10 ∷ []))

-- The body, of which `len` bytes and a terminator are expected, is copied behind the header.
abbrev pub split_head : Bytes → ℕ → Option ℕ → Ran Received
split_head head len none = returns (record { head = head; body = head; room = length head + 1 })
split_head head len (some n) =
    if ltb ((len + 1) % u32_mod) (length (drop n head))
    then faults
    else returns (record { head = take n head; body = drop n head; room = (len + 1) % u32_mod })

-- `head` is the `head_len` bytes that were read. `safe_calloc` asserts that there is no body yet.
unfoldable pub behead_http_req : Option Body → Bytes → ℕ → Ran Received
behead_http_req none head len = split_head head len (neck head)
behead_http_req (some b) head len = aborts

-- What a call of inflate comes to: it goes on, it is the last one, or it fails.
pub data Inflated : Type 0 where
  goes_on ends : Bytes → Inflated
  broken : Inflated

-- `dest` is the memory that was allocated so far.
abbrev pub grown : Option Bytes → Bytes → Bytes
grown none piece = piece
grown (some dest) piece = dest ++ piece

abbrev pub is_null : Option Bytes → Bool
is_null none = true
is_null (some dest) = false

-- The first break of the loop: nothing at all, or too much.
abbrev pub stops_at : ℕ → Bool
stops_at n = n == 0 || leb http_body_limit n

-- The loop over the calls of inflate.
unfoldable pub inflate_loop : List Inflated → Option Bytes → Ran (Option Bytes)
inflate_loop [] dest = waits
inflate_loop (broken ∷ calls) none = returns (some (0 ∷ []))
inflate_loop (broken ∷ calls) (some dest) = returns (some dest)
inflate_loop (ends piece ∷ calls) dest =
    if stops_at (length (grown dest piece)) then returns dest else returns (some (grown dest piece))
inflate_loop (goes_on piece ∷ calls) dest =
    let rest = inflate_loop calls (some (grown dest piece)) in
    if stops_at (length (grown dest piece)) then returns dest else rest

abbrev pub whole : Bytes → Body
whole bytes = record { bytes = bytes; body_len = length bytes }

abbrev pub whole_or_null : Option Bytes → Option Body
whole_or_null none = none
whole_or_null (some bytes) = some (whole bytes)

-- `zlib` is what inflateInit2 and the calls of inflate come to, for the name of the encoding and the
-- compressed bytes; `none` where inflateInit2 fails.
unfoldable pub http_inflate :
    (Bytes → Body → Option (List Inflated)) → Bytes → Body → Ran (Option Body)
http_inflate zlib encoding body = elim (zlib encoding body) [
  | none ↦ returns none
  | some calls ↦ inflate_loop calls none >>= λ dest. returns (whole_or_null dest)
]
