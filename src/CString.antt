-- ===== src/CString.antt =====
-- The parts of the C string library that the probe calls, over byte lists. A `Bytes` is the content
-- of a C string up to its terminator, a pointer into a string is the suffix that it points at, and
-- a null pointer is `none`. Characters are bytes 1 to 255; the locale is "C".
pub mod Search
pub mod Decimal
use Prim.Native.Char.{code}
use Prim.Native.String.{String}
use freenote_probe.Base.{
  ℕ, zero, suc, ◌+◌, ◌-◌, ◌*◌, ◌%◌, Bool, true, false, ◌&&◌, ◌||◌, Option, none, some, List, [],
  ◌∷◌, leb, ◌==◌, suc, if◌then◌else◌,
}
use freenote_probe.Base.Int.{ℤ, pos, ◌-ℤ◌}

abbrev pub Bytes : Type 0
Bytes = List ℕ

-- The code points of a literal: its bytes, as every literal here is ASCII.
abbrev pub codes : String → Bytes
codes String.[] = []
codes (String.◌∷◌ c s) = code c ∷ codes s

-- strcmp(a, b) == 0
unfoldable pub streq : Bytes → Bytes → Bool
streq [] [] = true
streq [] (y ∷ ys) = false
streq (x ∷ xs) [] = false
streq (x ∷ xs) (y ∷ ys) = x == y && streq xs ys

-- strncmp(s, p, strlen(p)) == 0
unfoldable pub starts_with : Bytes → Bytes → Bool
starts_with s [] = true
starts_with [] (y ∷ ys) = false
starts_with (x ∷ xs) (y ∷ ys) = x == y && starts_with xs ys

-- strchr: the suffix that begins at the first `c`.
unfoldable pub strchr : Bytes → ℕ → Option Bytes
strchr [] c = none
strchr (x ∷ xs) c = if x == c then some (x ∷ xs) else strchr xs c

-- strstr: the suffix that begins at the first occurrence of `p`.
unfoldable pub strstr : Bytes → Bytes → Option Bytes
unfolding starts_with
strstr [] p = if starts_with [] p then some [] else none
strstr (x ∷ xs) p = if starts_with (x ∷ xs) p then some (x ∷ xs) else strstr xs p

-- A pointer moved on by `n`: it stays in the string or at its terminator, or the move is a fault.
unfoldable pub advance : ℕ → Bytes → Option Bytes
advance zero s = some s
advance (suc n) [] = none
advance (suc n) (x ∷ xs) = advance n xs

-- A buffer read as a C string ends at its first zero byte.
unfoldable pub c_string : Bytes → Bytes
c_string [] = []
c_string (x ∷ xs) = if x == 0 then [] else x ∷ c_string xs

abbrev pub isdigit : ℕ → Bool
isdigit c = leb b'0' c && leb c b'9'

abbrev isalpha : ℕ → Bool
isalpha c = leb b'a' c && leb c b'z' || leb b'A' c && leb c b'Z'

unfoldable pub isalnum : ℕ → Bool
isalnum c = isdigit c || isalpha c

-- Space, and the five control characters from tab to carriage return.
unfoldable pub isspace : ℕ → Bool
isspace c = c == b' ' || leb 9 c && leb c 13

unfoldable pub skip_space : Bytes → Bytes
skip_space [] = []
skip_space (c ∷ s) = if isspace c then skip_space s else c ∷ s

unfoldable pub digits_value : ℕ → Bytes → ℕ
digits_value n [] = n
digits_value n (c ∷ s) = if isdigit c then digits_value (n * 10 + (c - b'0')) s else n

signed_value : Bytes → ℤ
unfolding digits_value
signed_value [] = pos 0
signed_value (c ∷ s) =
    if c == b'-'
    then pos 0 -ℤ pos (digits_value 0 s)
    else pos (if c == b'+' then digits_value 0 s else digits_value 0 (c ∷ s))

-- atoi. C leaves a value outside `int` undefined; the model keeps the number that is written.
unfoldable pub atoi : Bytes → ℤ
unfolding skip_space signed_value
atoi s = signed_value (skip_space s)

-- The value of a hexadecimal digit.
unfoldable pub hex_value : ℕ → Option ℕ
hex_value c =
    if isdigit c
    then some (c - b'0')
    else if leb b'a' c && leb c b'f'
    then some (c - 87)
    else if leb b'A' c && leb c b'F'
    then some (c - 55)
    else none

-- "%x" at width one: a digit, or no match.
hex_one : Bytes → Option ℕ
unfolding hex_value
hex_one [] = none
hex_one (c ∷ s) = hex_value c

-- The first of two characters was a digit worth `h`. A leading "0x" is a prefix of a number that
-- the width cuts off, which is no match.
hex_second : ℕ → Bytes → Option ℕ
unfolding hex_value
hex_second h [] = some h
hex_second h (d ∷ s) =
    if h == 0 && (d == b'x' || d == b'X')
    then none
    else elim (hex_value d) [ none ↦ some h | some l ↦ some (h * 16 + l) ]

-- A sign takes one of the two places; minus negates in `unsigned int`.
hex_signed : Bytes → Option ℕ
unfolding hex_one hex_second hex_value
hex_signed [] = none
hex_signed (c ∷ s) =
    if c == b'-'
    then elim (hex_one s) [ none ↦ none | some v ↦ some ((4294967296 - v) % 4294967296) ]
    else if c == b'+'
    then hex_one s
    else elim (hex_value c) [ none ↦ none | some h ↦ hex_second h s ]

-- sscanf(s, "%2x", &v): the value stored, or `none` where nothing is.
unfoldable pub scan_hex2 : Bytes → Option ℕ
unfolding skip_space hex_signed
scan_hex2 s = hex_signed (skip_space s)

-- strrchr: the offset of the last `c`.
unfoldable pub strrchr : Bytes → ℕ → Option ℕ
strrchr [] c = none
strrchr (x ∷ s) c = elim (strrchr s c) [
  | some n ↦ some (suc n)
  | none ↦ if x == c then some 0 else none
]

abbrev pub tolower : ℕ → ℕ
tolower c = if leb b'A' c && leb c b'Z' then c + 32 else c

-- strncasecmp(s, p, strlen(p)) == 0
unfoldable pub starts_with_nocase : Bytes → Bytes → Bool
starts_with_nocase s [] = true
starts_with_nocase [] (y ∷ ys) = false
starts_with_nocase (x ∷ xs) (y ∷ ys) = tolower x == tolower y && starts_with_nocase xs ys
