-- ===== src/Cookie.antt =====
-- src/lib/cookie.c: reading cookies from `Set-Cookie: ` headers, and printing them as one `Cookie: `
-- header. A field of a cookie is its whole buffer, so that what is left of an older text is seen: a
-- copy of `n` bytes writes no terminator. A copy past the end of a buffer is a fault, `none`.
pub mod Print
pub mod Parse
pub mod Header
use freenote_probe.Base.{
  ℕ, zero, suc, ◌+◌, ◌-◌, Bool, true, false, ◌&&◌, ◌||◌, not, Option, none, some, List, [], ◌∷◌,
  ◌++◌, ltb, leb, ◌==◌, if◌then◌else◌, ◌>>=◌, length, get_elem?, set, take, drop,
}
use freenote_probe.CString.{Bytes, codes, strchr, strstr, advance, c_string}

abbrev pub cookie_magic : ℕ
cookie_magic = 0x63636363

-- ~COOKIE_MAGIC, in 32 bits.
abbrev pub no_cookie_magic : ℕ
no_cookie_magic = 0x9C9C9C9C

pub record Cookie : Type 0 where
  pub magic_cookie : ℕ
  pub content : Bytes
  pub path : Bytes
  pub domain : Bytes
  pub expires : Bytes

unfoldable pub init_cookie_list : List Cookie → List Cookie
init_cookie_list [] = []
init_cookie_list (c ∷ cs) = record c { magic_cookie = no_cookie_magic } ∷ init_cookie_list cs

-- `strncpy` of the `n` bytes before a semicolon into a buffer.
unfoldable pub copy_text : Bytes → Bytes → ℕ → Option Bytes
copy_text buffer s n = if leb n (length buffer) then some (take n s ++ drop n buffer) else none

-- `x[0] = '\0'`
unfoldable pub clear_text : Bytes → Bytes
clear_text [] = []
clear_text (x ∷ xs) = 0 ∷ xs

-- `copy_property` of the text behind `key`, which is cleared if there is none and left empty if no
-- semicolon ends it.
unfoldable pub copy_property : Bytes → Bytes → Bytes → Option Bytes
unfolding copy_text clear_text
copy_property buffer key cs =
    let cleared = clear_text buffer in
    elim (strstr cs key) [
      | none ↦ some cleared
      | some found ↦
          let x = drop (length key) found in
          elim (strchr x b';') [
            | none ↦ some cleared
            | some semicolon ↦ copy_text cleared x (length x - length semicolon)
          ]
    ]

-- The new cookie, or `none` within for -1: with no semicolon the cookie is not touched.
unfoldable pub extract_cookie : Cookie → Bytes → Option (Option Cookie)
unfolding copy_text copy_property
extract_cookie c cs = elim (strchr cs b';') [
  | none ↦ some none
  | some semicolon ↦ copy_text c.content cs (length cs - length semicolon) >>= λ content.
      (copy_property c.domain (codes "domain=") cs >>= λ domain.
      (copy_property c.expires (codes "expires=") cs >>= λ expires.
      (copy_property c.path (codes "path=") cs >>= λ path. some (
        some (record {
          magic_cookie = cookie_magic;
          content = content;
          path = path;
          domain = domain;
          expires = expires;
        })))))
]

-- Where the text of the next header begins: the loop goes on 13 bytes from the header's name. `none`
-- within is no header.
unfoldable pub next_header : Bytes → Option (Option Bytes)
next_header current = elim (strstr current (codes "Set-Cookie: ")) [
  | none ↦ some none
  | some found ↦ advance 13 found >>= λ cs. some (some cs)
]

-- The cookie that was read goes into slot `n`, and is counted if there is one.
abbrev pub store : List Cookie → ℕ → Option Cookie → List Cookie × ℕ
store clist n none = (clist, n)
store clist n (some c) = (set clist n c, n + 1)

-- The cookie at `cs` is read into slot `n`, and counted if it was one.
unfoldable pub read_slot : List Cookie → ℕ → Bytes → Option (List Cookie × ℕ)
unfolding extract_cookie
read_slot clist n cs =
    get_elem? clist n >>= λ c. (extract_cookie c cs >>= λ read. some (store clist n read))

-- The loop of `parse_cstring` with `n` cookies read. `none` is a fault, or the end of the fuel.
unfoldable pub parse_loop : ℕ → List Cookie → ℕ → ℕ → Bytes → Option (List Cookie × ℕ)
unfolding next_header read_slot
parse_loop zero clist n cmax current = none
parse_loop (suc fuel) clist n cmax current =
    if not (ltb n cmax)
    then some (clist, n)
    else (next_header current >>= λ header. elim header [
      | none ↦ some (clist, n)
      | some cs ↦ read_slot clist n cs >>= λ r. parse_loop fuel r.0 r.1 cmax cs
    ])

-- Each round goes on by 13 bytes, so the length of the text is enough fuel.
unfoldable pub parse_cstring : List Cookie → ℕ → Bytes → Option (List Cookie × ℕ)
unfolding parse_loop
parse_cstring clist cmax cstring = parse_loop (length cstring + 1) clist 0 cmax cstring

unfoldable pub valid_cookie : Cookie → Bool
valid_cookie c = c.magic_cookie == cookie_magic

-- What the loop of `cookies_to_s` appends for the cookies below `max`, which are the list here. The
-- content of each has its terminator, which `cookies_strdup` tests here.
unfoldable pub cookie_texts : List Cookie → Bytes
unfolding valid_cookie
cookie_texts [] = []
cookie_texts (c ∷ cookies) =
    (if valid_cookie c then c_string c.content ++ b';' ∷ b' ' ∷ [] else []) ++ cookie_texts cookies

unfoldable pub cookies_to_s : List Cookie → Bytes
unfolding cookie_texts
cookies_to_s cookies = codes "Cookie: " ++ (cookie_texts cookies ++ 13 ∷ 10 ∷ [])

-- The loop of `cookies_strlen`, for contents with their terminators.
unfoldable pub cookie_sizes : List Cookie → ℕ
unfolding valid_cookie
cookie_sizes [] = 0
cookie_sizes (c ∷ cookies) =
    (if valid_cookie c then length (c_string c.content) + 2 else 0) + cookie_sizes cookies

unfoldable pub cookies_strlen : List Cookie → ℕ
unfolding cookie_sizes
cookies_strlen cookies = let size = cookie_sizes cookies in if size == 0 then 0 else size + 11

-- Whether an array holds a terminator.
unfoldable pub is_ended : Bytes → Bool
is_ended [] = false
is_ended (x ∷ s) = let rest = is_ended s in x == 0 || rest

-- Whether the content of every valid cookie has its terminator, which extract_cookie does not write.
unfoldable pub are_ended : List Cookie → Bool
unfolding is_ended
are_ended [] = true
are_ended (c ∷ cookies) =
    let rest = are_ended cookies in (not (valid_cookie c) || is_ended c.content) && rest

-- The outer `none` is a fault: a content that is read beyond its end, or a text that does not fit the
-- memory allocated for it; the inner one is NULL.
unfoldable pub cookies_strdup : List Cookie → Option (Option Bytes)
unfolding cookies_strlen cookies_to_s are_ended
cookies_strdup cookies =
    let len = cookies_strlen cookies in
    let s = cookies_to_s cookies in
    if not (are_ended cookies)
    then none
    else if len == 0
    then some none
    else if ltb (length s) len
    then some (some s)
    else none
