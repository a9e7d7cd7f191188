-- ===== src/Http/Body/Chunks.antt =====
-- src/net-modules/http.c: `read_chunked_body_bin`, which reads until it finds the chunk of size 0. A
-- pointer is its offset in the buffer of `http_read_size` bytes and a terminator.
use freenote_probe.Base.{
  ℕ, zero, suc, ◌+◌, ◌-◌, ◌%◌, Bool, ◌&&◌, ◌||◌, Option, none, some, List, [], ◌∷◌, ◌++◌,
  if◌then◌else◌, ◌==◌, ltb, leb, length, drop, get_elem?,
}
use freenote_probe.CString.{Bytes, skip_space}
use freenote_probe.Ran.{Ran, returns, faults, waits, ◌>>=◌}
use freenote_probe.Http.{Round, read_to_buffer_0, http_read_size}
use freenote_probe.Http.Chunked.{Body, size_mod, isxdigit, hex_number, strtoul16}
use freenote_probe.Http.Body.{
  Conn, read_with, Received, append_body, behead_http_req, http_body_limit,
}

-- The byte at an offset; the buffer is zero behind the bytes that were read, and so is the byte behind
-- a full buffer.
abbrev pub at : Bytes → ℕ → ℕ
at buf i = elim (get_elem? buf i) [ none ↦ 0 | some b ↦ b ]

-- The number of digits at an offset, up to the end of what was read.
unfoldable pub count_digits : Bytes → ℕ
count_digits [] = 0
count_digits (x ∷ s) = let n = count_digits s in if isxdigit x then suc n else 0

-- strtoul to base 16: a prefix "0x" needs a digit behind it.
abbrev pub behind_prefix : Bytes → Bytes
behind_prefix (a ∷ b ∷ c ∷ s) =
    if a == b'0' && (b == b'x' || b == b'X') && isxdigit c then c ∷ s else a ∷ b ∷ c ∷ s
behind_prefix s = s

-- A minus negates a number that is not too large.
abbrev pub negated : ℕ → ℕ
negated n = if ltb n size_mod then (size_mod - n) % size_mod else size_mod - 1

abbrev pub signed_hex : Bytes → ℕ
signed_hex [] = 0
signed_hex (c ∷ s) =
    if c == b'-'
    then negated (hex_number 0 (behind_prefix s))
    else strtoul16 (behind_prefix (if c == b'+' then s else c ∷ s))

unfoldable pub strtoul : Bytes → ℕ
strtoul s = signed_hex (skip_space s)

-- A size may stand at `c0`: at the begin, or behind a line end.
unfoldable pub may_be_size : Bytes → ℕ → Bool
may_be_size buf c0 =
    c0 == 0
    || ltb 2 c0
      && ltb 2 (length buf)
      && at buf (c0 - 2) == 13
      && at buf (c0 - 1) == 10
      && isxdigit (at buf c0)

-- The number of bytes to ask for next. A size of 2^63 or more is negative as a `long`, and one that
-- the addition of 8 would overflow is undefined.
unfoldable pub next_len : ℕ → ℕ → Option ℕ
next_len seen n =
    if leb 9223372036854775808 n
    then some seen
    else if ltb n seen
    then some seen
    else if leb 9223372036854775800 n
    then none
    else some (n + 8)

-- How the scan of a buffer ends: the last chunk was found, or so many bytes are to be asked for.
pub data Scan : Type 0 where
  last_one : Scan
  ask : ℕ → Scan

abbrev pub found_size : (ℕ → ℕ → Ran Scan) → Bytes → ℕ → ℕ → ℕ → Ran Scan
found_size go buf c0 digits n =
    if n == 0 then returns last_one else elim (next_len (length buf) n) [
      | none ↦ faults
      | some len ↦ go (if digits == 0 then c0 + 1 else c0 + digits) len
    ]

-- A round of the scan at `c0`; `go` is the rest of the loop.
abbrev pub scan_round : (ℕ → ℕ → Ran Scan) → Bytes → ℕ → ℕ → Ran Scan
scan_round go buf c0 len =
    let digits = count_digits (drop c0 buf) in
    if may_be_size buf c0
    then if ltb (c0 + digits + 1) (length buf)
        && at buf (c0 + digits) == 13
        && at buf (c0 + digits + 1) == 10
      then found_size go buf c0 digits (strtoul (drop c0 buf))
      else go (c0 + 1) len
    else if leb (length buf) (c0 + 1)
    then returns (ask len)
    else go (c0 + 1) len

unfoldable pub scan : ℕ → Bytes → ℕ → ℕ → Ran Scan
scan zero buf c0 len = faults
scan (suc fuel) buf c0 len = scan_round (λ c len2. scan fuel buf c len2) buf c0 len

abbrev pub at_most_read_size : ℕ → ℕ
at_most_read_size len = if ltb http_read_size len then http_read_size else len

-- The bytes are kept if the body stays below its limit; the memory is then one byte larger.
unfoldable pub keep_piece : Bool → Received → Bytes → Received
keep_piece keep r piece =
    if keep && ltb 0 (length piece) && ltb (length r.body + length piece) http_body_limit
    then record r { body = r.body ++ piece; room = length r.body + length piece + 1 }
    else r

-- What follows a scan; `go` is the rest of the outer loop.
abbrev pub after_scan :
    (ℕ → Bytes → Received → Bytes → Ran (Received × Conn))
    → Conn
    → Received
    → Scan
    → Ran (Bytes × Conn)
    → Ran (Received × Conn)
after_scan go conn r last_one m = returns (r, conn)
after_scan go conn r (ask len) m =
    m >>= λ (piece, after). go (at_most_read_size len) piece r after.incoming

abbrev pub asked : Scan → ℕ
asked last_one = 0
asked (ask len) = at_most_read_size len

-- The outer loop: each round scans `buf` and makes a call to read. The scan moves on by a byte in
-- each round, and by one byte at most behind the buffer.
unfoldable pub chunk_loop :
    Bool → List (List Round) → ℕ → Bytes → Received → Bytes → Ran (Received × Conn)
chunk_loop keep calls len [] r incoming = returns (r, record { calls = calls; incoming = incoming })
chunk_loop keep [] len (x ∷ buf) r incoming = scan (length buf + 3) (x ∷ buf) 0 len >>= λ s.
    after_scan (λ len2 piece r2 incoming2. waits) (record { calls = []; incoming = incoming }) r s
      waits
chunk_loop keep (rounds ∷ calls) len (x ∷ buf) r incoming =
    scan (length buf + 3) (x ∷ buf) 0 len >>= λ s.
    after_scan
      (λ len2 piece r2 incoming2.
        chunk_loop keep calls len2 piece (keep_piece keep r2 piece) incoming2)
      (record { calls = rounds ∷ calls; incoming = incoming }) r s
      (read_with read_to_buffer_0 (asked s) incoming (rounds ∷ calls))

-- The bytes behind the header are copied to the buffer.
abbrev pub chunks_of : Bool → Received → Conn → Ran (Received × Conn)
chunks_of keep r conn =
    if ltb (http_read_size + 1) (length r.body)
    then faults
    else chunk_loop keep conn.calls http_read_size r.body r conn.incoming

abbrev pub first_read : Bool → Received → List (List Round) → Bytes → Bytes → Ran (Received × Conn)
first_read keep r calls incoming [] =
    read_with read_to_buffer_0 http_read_size incoming calls >>= λ (piece, after).
    append_body r piece >>= λ r2. chunks_of keep r2 after
first_read keep r calls incoming (x ∷ body) =
    chunks_of keep r (record { calls = calls; incoming = incoming })

unfoldable pub read_chunked_body_bin : Bool → Option Body → Bytes → Conn → Ran (Received × Conn)
read_chunked_body_bin keep body head conn = behead_http_req body head (http_read_size + 1) >>= λ r.
    first_read keep r conn.calls conn.incoming r.body
