-- ===== src/Tests/Headers.antt =====
-- src/header-parse.c on concrete headers.
use freenote_probe.Base.{true, false, some, ◌∷◌, ◌++◌, ◌≡◌, refl}
use freenote_probe.CString.{
  codes, strchr, strstr, strrchr, starts_with, starts_with_nocase, isspace,
}
use freenote_probe.CString.Search.{Lacks-strchr}
use freenote_probe.Ran.{returns, exits}
use freenote_probe.HeaderParse.{
  header_type, spaces, copy_value, read_lines, get_header_dup, is_html,
}
use freenote_probe.HeaderParse.Field.{one_field, get_header_dup_field}

get_header_dup_field_example :
    get_header_dup false (codes "Content-type") (
      one_field
        (codes "HTTP/1.0 200 OK")
        (codes "ontent-type")
        (codes "ext/html")
        (codes "b")
        b'C'
        b't')
    ≡ returns (some (codes "text/html"))
get_header_dup_field_example =
    get_header_dup_field false (codes "HTTP/1.0 200 OK") (codes "ontent-type") (codes "ext/html")
      (codes "b") b'C' b't' (Lacks-strchr (codes "HTTP/1.0 200 OK") 13 (unfold strchr in refl))
      (Lacks-strchr (codes "Content-type") 13 (unfold strchr in refl))
      (Lacks-strchr (codes "text/html") 13 (unfold strchr in refl)) (unfold isspace in refl)

-- Lines that end with "\n" only, a value over two lines, and a name in other letters.
folded_value :
    get_header_dup false
      (codes "Location")
      (codes "HTTP/1.0 302 Found\nlocation: a\n  b\nAge: 1\n\n")
    ≡ returns (some (codes "a b"))
unfolding get_header_dup header_type strstr strrchr starts_with starts_with_nocase spaces copy_value
    read_lines isspace
folded_value = refl

page_is_html :
    is_html false (some (codes "HTTP/1.0 200 OK\nContent-Type: text/html\n\n")) ≡ returns true
unfolding is_html get_header_dup header_type strstr strrchr starts_with starts_with_nocase spaces
    copy_value read_lines isspace
page_is_html = refl

-- The skip of the spaces in front of an empty value passes the end of its line.
empty_value_exits :
    get_header_dup false
      (codes "Location")
      (codes "HTTP/1.0 302" ++ 13 ∷ 10 ∷ codes "Location:" ++ 13 ∷ 10 ∷ 13 ∷ 10 ∷ codes "b")
    ≡ exits
unfolding get_header_dup header_type strstr strrchr starts_with starts_with_nocase spaces copy_value
    read_lines isspace
empty_value_exits = refl
