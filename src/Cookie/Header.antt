-- ===== src/Cookie/Header.antt =====
-- What `parse_cstring` of src/lib/cookie.c makes of one header.
use freenote_probe.Base.{
  ℕ, suc, ◌+◌, ◌-◌, ◌≤◌, true, none, some, [], ◌∷◌, ◌++◌, leb, ◌≡◌, refl, arith, length, drop,
  length-append, take-length,
}
use freenote_probe.CString.{Bytes, codes, strstr, advance, starts_with}
use freenote_probe.CString.Search.{Lacks, strchr-append}
use freenote_probe.Cookie.{
  Cookie, cookie_magic, clear_text, copy_text, copy_property, extract_cookie, next_header,
  read_slot, parse_loop, parse_cstring,
}

-- A text with no attributes of a cookie.
pub record Bare (cs : Bytes) : Type 0 where
  pub no_domain : strstr cs (codes "domain=") ≡ none
  pub no_expires : strstr cs (codes "expires=") ≡ none
  pub no_path : strstr cs (codes "path=") ≡ none

-- The cookie in a slot after `text` is copied into it.
abbrev pub filled_slot : Cookie → Bytes → Cookie
filled_slot slot text = record {
  magic_cookie = cookie_magic;
  content = text ++ drop (length text) slot.content;
  path = clear_text slot.path;
  domain = clear_text slot.domain;
  expires = clear_text slot.expires;
}

copy_text-append :
    (buffer p r : Bytes)
    → length p ≤ length buffer
    → copy_text buffer (p ++ r) (length (p ++ r) - length r) ≡ some (p ++ drop (length p) buffer)
unfolding copy_text
copy_text-append buffer p r h =
    let e : length (p ++ r) - length r ≡ length p = omega (arith, length-append {0} p r) in
    let fits : leb (length p) (length buffer) ≡ true = ground arith in rw (e, fits, take-length p r)

copy_property-none :
    (buffer key cs : Bytes)
    → strstr cs key ≡ none
    → copy_property buffer key cs ≡ some (clear_text buffer)
unfolding copy_property
copy_property-none buffer key cs e = rw (e, copy_property)

extract_cookie-append :
    (slot : Cookie) (text rest : Bytes)
    → Lacks b';' text
    → length text ≤ length slot.content
    → Bare (text ++ b';' ∷ rest)
    → extract_cookie slot (text ++ b';' ∷ rest) ≡ some (some (filled_slot slot text))
unfolding extract_cookie
extract_cookie-append slot text rest h fits bare =
    let cs = text ++ b';' ∷ rest in
    rw (
      strchr-append text rest b';' h,
      extract_cookie,
      copy_text-append slot.content text (b';' ∷ rest) fits,
      copy_property-none slot.domain (codes "domain=") cs bare.no_domain,
      copy_property-none slot.expires (codes "expires=") cs bare.no_expires,
      copy_property-none slot.path (codes "path=") cs bare.no_path,
    )

next_header-codes :
    (c : ℕ) (cs : Bytes) → next_header (codes "Set-Cookie: " ++ c ∷ cs) ≡ some (some cs)
unfolding next_header strstr starts_with advance
next_header-codes c cs = refl

-- From a header `Set-Cookie: TEXT;` with no attributes `parse_cstring` reads one cookie, whose content
-- is TEXT without its first character. No terminator is written behind it.
pub parse_cstring_header :
    (slot : Cookie) (c : ℕ) (text rest : Bytes)
    → Lacks b';' text
    → length text ≤ length slot.content
    → Bare (text ++ b';' ∷ rest)
    → parse_cstring (slot ∷ []) 1 (codes "Set-Cookie: " ++ c ∷ (text ++ b';' ∷ rest))
      ≡ some (filled_slot slot text ∷ [], 1)
unfolding parse_cstring
parse_cstring_header slot c text rest h fits bare =
    let cs = text ++ b';' ∷ rest in
    let fuel : length (codes "Set-Cookie: " ++ c ∷ cs) + 1 ≡ suc (suc (12 + length cs)) =
      omega arith in
    rw fuel (
      unfold parse_loop read_slot in
      rw (next_header-codes c cs, extract_cookie-append slot text rest h fits bare))
