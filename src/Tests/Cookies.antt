-- ===== src/Tests/Cookies.antt =====
-- src/lib/cookie.c on concrete headers.
use freenote_probe.Base.{
  ◌+◌, ◌≡◌, ◌⊎◌, refl, none, some, List, [], ◌∷◌, ◌++◌, length, count, ◌<◌, true, false,
}
use freenote_probe.CString.{Bytes, codes, strchr, strstr, starts_with, advance, c_string}
use freenote_probe.Cookie.{
  Cookie, no_cookie_magic, init_cookie_list, clear_text, copy_text, copy_property, extract_cookie,
  next_header, read_slot, parse_loop, parse_cstring, valid_cookie, cookie_texts, cookies_to_s,
  cookie_sizes, cookies_strlen, cookies_strdup, are_ended, is_ended,
}
use freenote_probe.Cookie.Print.{cookies_strdup_lem}
use freenote_probe.Cookie.Header.{Bare, filled_slot}

-- A slot with short, cleared buffers.
abbrev slot : Cookie
slot = record {
  magic_cookie = no_cookie_magic;
  content = 0 ∷ 0 ∷ 0 ∷ 0 ∷ 0 ∷ 0 ∷ [];
  path = 0 ∷ 0 ∷ [];
  domain = 0 ∷ 0 ∷ [];
  expires = 0 ∷ 0 ∷ [];
}

abbrev jar : List Cookie
jar = filled_slot slot (codes "b=1") ∷ slot ∷ []

abbrev header : Bytes
header = codes "Set-Cookie: ab=1; x"

header-parsed : parse_cstring (slot ∷ []) 1 header ≡ some (filled_slot slot (codes "b=1") ∷ [], 1)
unfolding parse_cstring parse_loop next_header read_slot extract_cookie copy_text copy_property
    clear_text strchr strstr starts_with advance
header-parsed = refl

jar-printed : cookies_to_s jar ≡ codes "Cookie: b=1; " ++ 13 ∷ 10 ∷ []
unfolding cookies_to_s cookie_texts valid_cookie c_string clear_text
jar-printed = refl

init-emptied : cookies_strdup (init_cookie_list jar) ≡ some none
unfolding cookies_strdup are_ended is_ended cookies_strlen cookie_sizes valid_cookie
    init_cookie_list
init-emptied = refl

cookies_strdup_example :
    (are_ended jar ≡ false) × (cookies_strdup jar ≡ none)
    ⊎ (are_ended jar ≡ true) × (count valid_cookie jar ≡ 0) × (cookies_strdup jar ≡ some none)
    ⊎ (are_ended jar ≡ true)
      × (0 < count valid_cookie jar)
      × (cookies_strdup jar ≡ some (some (cookies_to_s jar)))
      × (length (cookies_to_s jar) + 1 ≡ cookies_strlen jar)
cookies_strdup_example = cookies_strdup_lem jar

bare : Bare (codes "b=1; x")
bare = record {
  no_domain = unfold strstr starts_with in refl;
  no_expires = unfold strstr starts_with in refl;
  no_path = unfold strstr starts_with in refl;
}
