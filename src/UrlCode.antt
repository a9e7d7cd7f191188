-- ===== src/UrlCode.antt =====
-- src/urlencode.c and src/urldecode.c: `urlencode_dup` and `urldecode_dup`. The output buffer is
-- modelled by the number of bytes left in it, and a write or a read outside it is a fault, `none`.
pub mod Encode
pub mod RoundTrip
use freenote_probe.Base.{
  ℕ, suc, ◌+◌, ◌-◌, ◌*◌, ◌/◌, ◌%◌, Bool, true, false, ◌&&◌, ◌||◌, Option, none, some, List, [], ◌∷◌,
  ltb, ◌==◌, if◌then◌else◌, ◌>>=◌, length,
}
use freenote_probe.CString.{Bytes, codes, isalnum, scan_hex2, c_string}

abbrev url_safe : Bytes
url_safe = codes "-_.!~*'()"

abbrev url_reserved : Bytes
url_reserved = codes ";/?:@&=+$,"

contains : Bytes → ℕ → Bool
contains [] c = false
contains (x ∷ xs) c = if c == x then true else contains xs c

is_urlsafe : ℕ → Bool
unfolding contains
is_urlsafe c = contains url_safe c

is_urlreservedsafe : ℕ → Bool
unfolding contains
is_urlreservedsafe c = contains url_reserved c

-- The test of the loop of `urlencode_common`: the byte is copied as it is.
unfoldable pub is_literal : Bool → ℕ → Bool
unfolding isalnum is_urlsafe is_urlreservedsafe
is_literal preserve_reserved c =
    isalnum c || is_urlsafe c || preserve_reserved && is_urlreservedsafe c

unfoldable pub hex_digit : ℕ → ℕ
hex_digit n = if ltb n 10 then n + b'0' else n + 87

-- What one round writes: the byte, or `%` with its two lower-case hexadecimal digits.
unfoldable pub encode_byte : Bool → ℕ → Bytes
unfolding hex_digit
encode_byte preserve_reserved c =
    if is_literal preserve_reserved c
    then c ∷ []
    else b'%' ∷ hex_digit (c / 16) ∷ hex_digit (c % 16) ∷ []

-- The loop, over a buffer with `room` bytes left. A literal takes one byte; `sprintf` writes three
-- bytes and a terminator, and the next round overwrites the terminator.
unfoldable pub urlencode_common : Bytes → ℕ → Bool → Option Bytes
unfolding hex_digit
urlencode_common [] room preserve_reserved = some []
urlencode_common (c ∷ from) room preserve_reserved =
    if is_literal preserve_reserved c
    then (if ltb room 1
        then none
        else urlencode_common from (room - 1) preserve_reserved >>= λ to. some (c ∷ to))
    else if ltb room 4
    then none
    else urlencode_common from (room - 3) preserve_reserved >>= λ to.
        some (b'%' ∷ hex_digit (c / 16) ∷ hex_digit (c % 16) ∷ to)

-- The buffer holds three bytes for each byte of the text. `strlen` of the result then reads up to
-- the first byte that was not written, which must be in the buffer.
unfoldable pub urlencode_dup : Bytes → Bool → Option Bytes
unfolding urlencode_common
urlencode_dup str preserve_reserved =
    urlencode_common str (length str * 3) preserve_reserved >>= λ to.
    if ltb (length to) (length str * 3) then some to else none

-- What `sscanf` leaves in `tmp`: nothing is stored where nothing matches.
unfoldable pub scan_tmp : Option ℕ → ℕ → ℕ
scan_tmp none tmp = tmp
scan_tmp (some v) tmp = v

-- The loop of `urldecode_common`: `tmp` is the last value that `sscanf` stored. A `%` takes two
-- more bytes whatever they are, so with fewer the next read lies behind the terminator.
unfoldable pub urldecode_common : Bytes → ℕ → Option Bytes
unfolding scan_tmp
urldecode_common [] tmp = some []
urldecode_common (c ∷ []) tmp = if c == b'%' then none else some (c ∷ [])
urldecode_common (c ∷ a ∷ []) tmp =
    let plain = urldecode_common (a ∷ []) tmp >>= λ to. some (c ∷ to) in
    if c == b'%' then none else plain
urldecode_common (c ∷ a ∷ b ∷ from) tmp =
    let value = scan_tmp (scan_hex2 (a ∷ b ∷ from)) tmp in
    let escaped = urldecode_common from value >>= λ to. some (value % 256 ∷ to) in
    let plain = urldecode_common (a ∷ b ∷ from) tmp >>= λ to. some (c ∷ to) in
    if c == b'%' then escaped else plain

-- `unset` is what the local `tmp` holds before the first `sscanf`. The result is a C string: an
-- escaped zero byte ends it.
unfoldable pub urldecode_dup : Bytes → ℕ → Option Bytes
unfolding urldecode_common
urldecode_dup str unset = urldecode_common str unset >>= λ to. some (c_string to)
