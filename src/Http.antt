-- ===== src/Http.antt =====
-- src/net-modules/http.c: the loops that send and receive on a connection. The outside world is a
-- list of what the calls of select, read and write come to, one after the other; a loop that still
-- waits where the list ends has the result `none`. Which of its two timeouts select gets does not
-- matter here.
pub mod Transfer
pub mod Request
pub mod Fetched
mod Fills
pub mod Chunked
pub mod Body
pub mod Connect
pub mod Text
pub mod Path
pub mod World
pub mod Response
use freenote_probe.Base.{
  ℕ, zero, suc, ◌+◌, ◌-◌, Bool, true, false, not, ◌&&◌, ◌||◌, Option, none, some, List, [], ◌∷◌,
  ◌++◌, ◌>>=◌, if◌then◌else◌, ltb, length, take, drop,
}
use freenote_probe.Base.Int.{ℤ, pos, negsuc, eq_ℤ, ltb_ℤ}
use freenote_probe.CString.{Bytes, codes, starts_with, strstr, c_string}

abbrev pub http_read_size : ℕ
http_read_size = 0x4000

-- The size of the next piece.
abbrev pub next_num : ℕ → ℕ
next_num len = if ltb len http_read_size then len else http_read_size

-- `answers` is what write or SSL_write returns; the result is the number of bytes sent and the bytes
-- that the calls took.
unfoldable pub write_from_buffer : List ℤ → Bytes → Option (ℕ × Bytes)
write_from_buffer answers [] = some (0, [])
write_from_buffer [] (x ∷ buf) = none
write_from_buffer (negsuc w ∷ answers) (x ∷ buf) = some (0, [])
write_from_buffer (pos zero ∷ answers) (x ∷ buf) = some (0, [])
write_from_buffer (pos (suc w) ∷ answers) (x ∷ buf) =
    write_from_buffer answers (drop w buf) >>= λ (seen, sent).
    some (suc w + seen, take (suc w) (x ∷ buf) ++ sent)

-- "\r\n0\r\n"
abbrev pub crlf0crlf : Bytes
crlf0crlf = 13 ∷ 10 ∷ b'0' ∷ 13 ∷ 10 ∷ []

-- The search begins at fewer than `n` positions. Behind the bytes of the buffer there are zeros.
unfoldable pub strstr_crlf0crlf_from : ℕ → Bytes → Bool
strstr_crlf0crlf_from zero s = false
strstr_crlf0crlf_from (suc n) [] = false
strstr_crlf0crlf_from (suc n) (x ∷ s) =
    let rest = strstr_crlf0crlf_from n s in if starts_with (x ∷ s) crlf0crlf then true else rest

unfoldable pub strstr_crlf0crlf : Bytes → ℕ → Bool
strstr_crlf0crlf haystack limit = strstr_crlf0crlf_from (limit - 6) haystack

-- What a call of read or SSL_read comes to: some number of bytes at most, -1 with EINTR or EAGAIN,
-- or another error.
pub data Reading : Type 0 where
  gives : ℕ → Reading
  again : Reading
  fails : Reading

-- One round: the result of select, whether errno is EINTR, and the reading.
pub record Round : Type 0 where
  pub ret : ℤ
  pub eintr : Bool
  pub reading : Reading

abbrev pub Loop : Type 0
Loop = ℕ → Bytes → Bytes → Option (Bytes × Bytes)

abbrev pub take_piece : (Bytes → Bool) → Loop → ℕ → Bytes → Bytes → Bytes → Option (Bytes × Bytes)
take_piece stop go len seen incoming [] = some (seen, incoming)
take_piece stop go len seen incoming (x ∷ piece) =
    if stop (seen ++ x ∷ piece)
    then some (seen ++ x ∷ piece, drop (suc (length piece)) incoming)
    else go (len - suc (length piece)) (seen ++ x ∷ piece) (drop (suc (length piece)) incoming)

-- What follows the reading; `go` is the rest of the loop.
abbrev pub received : (Bytes → Bool) → Loop → ℕ → Bytes → Bytes → Reading → Option (Bytes × Bytes)
received stop go len seen incoming again = go len seen incoming
received stop go len seen incoming fails = some (seen, incoming)
received stop go len seen incoming (gives n) =
    take_piece stop go len seen incoming (take n (take (next_num len) incoming))

-- The loop that the three functions share, common_read_block included. `stop` is the test behind
-- it, `len` the room that is left, `seen` the bytes in the buffer, and `incoming` the bytes on
-- their way. The result is the buffer, and the bytes that were not read.
unfoldable pub read_loop : (Bytes → Bool) → List Round → Loop
read_loop stop rounds zero seen incoming = some (seen, incoming)
read_loop stop [] (suc len) seen incoming = none
read_loop stop (r ∷ rounds) (suc len) seen incoming =
    if eq_ℤ r.ret (pos 0)
    then some (seen, incoming)
    else if ltb_ℤ r.ret (pos 0) && not r.eintr
    then some (seen, incoming)
    else received stop (λ len2 seen2 incoming2. read_loop stop rounds len2 seen2 incoming2)
        (suc len) seen incoming r.reading

unfoldable pub read_to_buffer : List Round → ℕ → Bytes → Option (Bytes × Bytes)
read_to_buffer rounds len incoming = read_loop (λ seen. false) rounds len [] incoming

unfoldable pub read_to_buffer_0 : List Round → ℕ → Bytes → Option (Bytes × Bytes)
read_to_buffer_0 rounds len incoming =
    read_loop (λ seen. strstr_crlf0crlf seen len) rounds len [] incoming

abbrev pub found : Option Bytes → Bool
found none = false
found (some q) = true

-- The buffer is read as a C string.
unfoldable pub read_header : List Round → ℕ → Bytes → Option (Bytes × Bytes)
read_header rounds len incoming =
    read_loop
      (λ seen.
        found (strstr (c_string seen) (13 ∷ 10 ∷ 13 ∷ 10 ∷ []))
        || found (strstr (c_string seen) (10 ∷ 10 ∷ [])))
      rounds len [] incoming
