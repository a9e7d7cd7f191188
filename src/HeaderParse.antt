-- ===== src/HeaderParse.antt =====
-- src/header-parse.c: the fields of an HTTP header. A pointer into the header is its offset.
pub mod Field
pub mod Rounds
use mathlib.Core.Option
use freenote_probe.Base.{
  ℕ, zero, suc, ◌+◌, ◌-◌, Bool, true, false, not, ◌&&◌, Option, none, some, List, [], ◌∷◌, ◌++◌,
  ◌==◌, if◌then◌else◌, leb, ltb, length, get_elem?, take, drop,
}
use freenote_probe.CString.{Bytes, codes, strstr, strrchr, isspace, starts_with_nocase}
use freenote_probe.Ran.{Ran, returns, exits, faults, ◌>>=◌}

-- The offset of the first `p` at or behind `from`.
abbrev pub find : Bytes → Bytes → ℕ → Option ℕ
find p buf from = Option.map (λ q. length buf - length q) (strstr (drop from buf) p)

pub data HeaderType : Type 0 where
  normal_header lflf_header broken_header : HeaderType

-- The kind of the header and its end; in the third case the last line ends with "\r\n".
abbrev pub type_of : Option ℕ → Option ℕ → Option ℕ → Option ℕ → HeaderType × ℕ
type_of (some split) lflf n r = (normal_header, split)
type_of none (some split) n r = (lflf_header, split)
type_of none none (some n) (some r) = if n == r + 1 then (normal_header, r) else (lflf_header, n)
type_of none none (some n) none = (lflf_header, n)
type_of none none none r = (broken_header, 0)

unfoldable pub header_type : Bytes → HeaderType × ℕ
header_type header =
    type_of (find (13 ∷ 10 ∷ 13 ∷ 10 ∷ []) header 0) (find (10 ∷ 10 ∷ []) header 0)
      (strrchr header 10) (strrchr header 13)

-- The end of a line: "\r\n", or "\n" alone.
abbrev pub eol : Bool → Bytes
eol true = 13 ∷ 10 ∷ []
eol false = 10 ∷ []

abbrev pub width : Bool → ℕ
width true = 2
width false = 1

abbrev pub is_at : Bytes → ℕ → ℕ → Bool
is_at buf i b = elim (get_elem? buf i) [ none ↦ false | some x ↦ x == b ]

abbrev pub space_at : Bytes → ℕ → Bool
space_at buf i = elim (get_elem? buf i) [ none ↦ false | some x ↦ isspace x ]

-- The offset `c` is the begin of a line that is not the first one behind an empty line.
abbrev pub follows_line : Bool → Bytes → ℕ → Bool
follows_line true buf c =
    is_at buf (c - 2) 13
    && is_at buf (c - 1) 10
    && ltb 3 c
    && not (is_at buf (c - 4) 13)
    && not (is_at buf (c - 3) 10)
follows_line false buf c = is_at buf (c - 1) 10 && ltb 1 c && not (is_at buf (c - 2) 10)

-- while (isspace(*c)) ++c
unfoldable pub spaces : Bytes → ℕ
spaces [] = 0
spaces (x ∷ s) = let n = spaces s in if isspace x then suc n else 0

-- A copy of the bytes from `c` to `new`. Where `c` was moved behind `new`, a negative size is asked
-- for, or a size of 0 for a text without an end.
unfoldable pub copy_value : Bytes → ℕ → ℕ → Ran Bytes
copy_value buf c new =
    if leb c new
    then returns (take (new - c) (drop c buf))
    else if c == new + 1
    then faults
    else exits

-- The value begins behind the spaces; `go` is the rest of the loop.
abbrev pub take_value :
    (ℕ → Option Bytes → Ran (Option Bytes)) → Bool → Bytes → ℕ → Option ℕ → Ran (Option Bytes)
take_value go cr buf c none = returns none
take_value go cr buf c (some new) =
    copy_value buf (c + spaces (drop c buf)) new >>= λ v. go (new + width cr) (some v)

-- A line that goes on with the value is appended behind a space; an empty one overruns the buffer.
abbrev pub append_value :
    (ℕ → Option Bytes → Ran (Option Bytes))
    → Bool
    → Bytes
    → ℕ
    → Bytes
    → Option ℕ
    → Ran (Option Bytes)
append_value go cr buf c ret none = returns (some ret)
append_value go cr buf c ret (some new) =
    let start = c + spaces (drop c buf) in
    if leb start new
    then go (new + width cr) (some (ret ++ b' ' ∷ take (new - start) (drop start buf)))
    else faults

abbrev pub next_line :
    (ℕ → Option Bytes → Ran (Option Bytes)) → Option Bytes → Option ℕ → Ran (Option Bytes)
next_line go ret none = returns ret
next_line go ret (some c) = go c ret

-- One round of the loop, at `c`; `h` is the end of a line, the name of the field and a colon.
abbrev pub read_line :
    (ℕ → Option Bytes → Ran (Option Bytes))
    → Bool
    → Bytes
    → Bytes
    → ℕ
    → Option Bytes
    → Ran (Option Bytes)
read_line go cr h buf c none =
    if starts_with_nocase (drop c buf) h
    then take_value go cr buf (c + length h) (find (eol cr) buf (c + length h))
    else next_line go none (find (eol cr) buf (c + width cr))
read_line go cr h buf c (some ret) =
    if space_at buf c && follows_line cr buf c
    then append_value go cr buf c ret (find (eol cr) buf c)
    else next_line go (some ret) (find (eol cr) buf (c + width cr))

-- The loop up to `split`.
unfoldable pub read_lines : ℕ → Bool → Bytes → ℕ → Bytes → ℕ → Option Bytes → Ran (Option Bytes)
read_lines zero cr h split buf c ret = faults
read_lines (suc fuel) cr h split buf c ret =
    if ltb split c
    then returns ret
    else read_line (λ c2 ret2. read_lines fuel cr h split buf c2 ret2) cr h buf c ret

-- `junk` is what the variable `cr` holds before it is written, which a broken header leaves.
abbrev pub has_cr : Bool → HeaderType → Bool
has_cr junk normal_header = true
has_cr junk lflf_header = false
has_cr junk broken_header = junk

abbrev pub from_line : Bool → Bytes → ℕ → Bytes → Option ℕ → Ran (Option Bytes)
from_line cr h split buf none = returns none
from_line cr h split buf (some c) = read_lines (length buf + 2) cr h split buf c none

abbrev pub header_of : Bool → Bytes → Bytes → HeaderType × ℕ → Ran (Option Bytes)
header_of junk hdr buf (type, split) =
    let cr = has_cr junk type in
    from_line cr (eol cr ++ hdr ++ b':' ∷ []) split buf (find (eol cr) buf 0)

unfoldable pub get_header_dup : Bool → Bytes → Bytes → Ran (Option Bytes)
get_header_dup junk hdr buf = header_of junk hdr buf (header_type buf)

-- A missing header is no HTML.
unfoldable pub is_html : Bool → Option Bytes → Ran Bool
is_html junk none = returns false
is_html junk (some header) = get_header_dup junk (codes "Content-type") header >>= λ type.
    elim type [
      | none ↦ returns false
      | some t ↦ returns (elim (strstr t (codes "html")) [ none ↦ false | some q ↦ true ])
    ]
