-- ===== src/Http/Chunked.antt =====
-- src/net-modules/http.c: `unchunk_chunked_body`, which takes the chunks of a body out of their
-- frames. A pointer is its offset from the begin of the body together with the bytes of the buffer
-- behind it. Sizes are 64 bits wide.
pub mod RoundTrip
pub mod Overread
pub mod Size
use freenote_probe.Base.{
  ℕ, zero, suc, ◌+◌, ◌-◌, ◌*◌, ◌%◌, Bool, true, false, not, ◌&&◌, Option, none, some, [], ◌∷◌, ◌++◌,
  ◌>>=◌, if◌then◌else◌, ◌==◌, ltb, length, take, drop,
}
use freenote_probe.CString.{Bytes, hex_value}

abbrev pub size_mod : ℕ
size_mod = 18446744073709551616

abbrev pub isxdigit : ℕ → Bool
isxdigit c = elim (hex_value c) [ none ↦ false | some v ↦ true ]

abbrev pub not_xdigit : ℕ → Bool
not_xdigit c = not (isxdigit c)

-- The number that begins at a hexadecimal digit; the largest `unsigned long` stands for a larger one.
unfoldable pub hex_number : ℕ → Bytes → ℕ
hex_number n [] = n
hex_number n (c ∷ s) = elim (hex_value c) [ none ↦ n | some v ↦ hex_number (n * 16 + v) s ]

unfoldable pub strtoul16 : Bytes → ℕ
strtoul16 s = let n = hex_number 0 s in if ltb n size_mod then n else size_mod - 1

-- while (room && test(*c)) ++c: how far the pointer moves.
unfoldable pub run : (ℕ → Bool) → ℕ → Bytes → Option ℕ
run test zero s = some 0
run test (suc room) [] = none
run test (suc room) (x ∷ s) =
    let rest = (run test room s >>= λ k. some (suc k)) in if test x then rest else some 0

-- body_len - 1, which wraps.
abbrev pub last : ℕ → ℕ
last body_len = (body_len + size_mod - 1) % size_mod

-- c1[0] == '\r' && c1[1] == '\n'
abbrev pub is_crlf : Bytes → Option Bool
is_crlf [] = none
is_crlf (x ∷ []) = if x == 13 then none else some false
is_crlf (x ∷ y ∷ s) = some (x == 13 && y == 10)

-- (c1 + 1) < (body + body_len), and the line ends at `c1`.
abbrev pub ends_line : ℕ → ℕ → Bytes → Option Bool
ends_line body_len c1 s = if ltb (c1 + 1) body_len then is_crlf s else some false

-- A body, with the bytes of its memory that were written; `body_len` may be larger.
pub record Body : Type 0 where
  pub bytes : Bytes
  pub body_len : ℕ

-- The guard that keeps a chunk in the body: it adds the size to what was copied so far.
unfoldable pub chunk_len : ℕ → ℕ → ℕ → ℕ → ℕ
chunk_len body_len c0 dlen len =
    if ltb body_len ((dlen + len) % size_mod) then body_len - c0 else len

-- memcpy of `len` bytes out of the buffer.
abbrev pub copied : ℕ → Bytes → Option Bytes
copied len s = if ltb (length s) len then none else some (take len s)

-- The chunk whose size is `len` and which begins at `c0`; `go` is the rest of the loop.
abbrev pub take_chunk : (ℕ → Bytes → Bytes → Option Body) → ℕ → ℕ → Bytes → Bytes → ℕ → Option Body
take_chunk go body_len c0 s dest len =
    if len == 0
    then some (record { bytes = dest; body_len = length dest })
    else (copied (chunk_len body_len c0 (length dest) len) s >>= λ piece.
        go (c0 + length piece) (drop (length piece) s) (dest ++ piece))

-- The digits of a size were found at `c0`, and `k` of them.
abbrev pub read_chunk : (ℕ → Bytes → Bytes → Option Body) → ℕ → ℕ → Bytes → Bytes → ℕ → Option Body
read_chunk go body_len c0 s dest k = ends_line body_len (c0 + k) (drop k s) >>= λ line.
    if line
    then take_chunk go body_len (c0 + k + 2) (drop (k + 2) s) dest (strtoul16 s)
    else some (record { bytes = dest; body_len = c0 })

unfoldable pub unchunk_loop : ℕ → ℕ → ℕ → Bytes → Bytes → Option Body
unchunk_loop zero body_len c0 s dest = none
unchunk_loop (suc fuel) body_len c0 s dest = run not_xdigit (last body_len - c0) s >>= λ j.
    run isxdigit (last body_len - (c0 + j)) (drop j s) >>= λ k.
    read_chunk (λ c2 s2 dest2. unchunk_loop fuel body_len c2 s2 dest2) body_len (c0 + j) (drop j s)
      dest k

-- Each round but the last moves on by two bytes at least.
unfoldable pub unchunk_chunked_body : Bytes → ℕ → Option Body
unchunk_chunked_body buf body_len = unchunk_loop (body_len + 1) body_len 0 buf []
