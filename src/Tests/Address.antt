-- ===== src/Tests/Address.antt =====
-- src/url-parse.c on concrete URLs.
use freenote_probe.Base.{◌≡◌, refl, some, [], arith}
use freenote_probe.Base.Int.{pos}
use freenote_probe.CString.{Bytes, codes, strchr, advance, atoi, isspace}
use freenote_probe.CString.Search.{Lacks-strchr}
use freenote_probe.Url.{
  done, aborted, ParsedUrl, below, behind, url_scheme, url_user_pass, url_host, url_port, url_path,
  cut_piece, port_number, url_parse,
}
use freenote_probe.Url.Accepts.{secured, url_parse-url_text}
use freenote_probe.Url.Limits.{url_parse_no_path}

abbrev full_url : Bytes
full_url = codes "https://me:pw@h:8080/i"

abbrev full_parts : ParsedUrl
full_parts = record {
  scheme = [];
  user = codes "me";
  passwd = codes "pw";
  host = codes "h";
  port = pos 8080;
  path = codes "/i";
}

full-parsed : url_parse full_url ≡ done full_parts
unfolding url_parse url_scheme url_user_pass url_host url_port url_path cut_piece port_number below
    behind strchr advance atoi isspace
full-parsed = refl

url_parse-url_text_example : url_parse full_url ≡ done full_parts
unfolding atoi isspace
url_parse-url_text_example =
    url_parse-url_text (codes "https") (secured (codes "me") (codes "pw")) (codes "h")
      (some (codes "8080")) (codes "i") (Lacks-strchr (codes "https") _ (unfold strchr in refl))
      (
        (Lacks-strchr (codes "me") _ (unfold strchr in refl)),
        (Lacks-strchr (codes "me") _ (unfold strchr in refl)),
        (Lacks-strchr (codes "pw") _ (unfold strchr in refl)),
        omega arith,
        omega arith,
      )
      (Lacks-strchr (codes "h") _ (unfold strchr in refl))
      (Lacks-strchr (codes "h") _ (unfold strchr in refl))
      (Lacks-strchr (codes "8080") _ (unfold strchr in refl)) (omega arith) (omega arith)

url_parse_no_path_example : url_parse (codes "ftp://h") ≡ aborted
url_parse_no_path_example =
    url_parse_no_path (codes "ftp") (codes "h")
      (Lacks-strchr (codes "ftp") _ (unfold strchr in refl))
      (Lacks-strchr (codes "h") _ (unfold strchr in refl))
      (Lacks-strchr (codes "h") _ (unfold strchr in refl))
      (Lacks-strchr (codes "h") _ (unfold strchr in refl))
