-- ===== src/Tests/Components.antt =====
-- src/net-modules/http-recurse.c on a site whose pages each have one picture.
use freenote_probe.Base.{
  ℕ, zero, suc, ◌+◌, ◌≤◌, ◌≡◌, refl, true, some, List, [], ◌∷◌, length, arith,
}
use freenote_probe.Base.Int.{pos}
use freenote_probe.CString.{Bytes, codes}
use freenote_probe.Task.Types.{ok}
use freenote_probe.Recurse.{Pages, visit_url, visit_urls, http_recurse}
use freenote_probe.Recurse.Bounds.{most, http_recurse_le}

-- At most `n` URLs, and one if there is room for it.
abbrev picture : ℕ → List Bytes
picture zero = []
picture (suc n) = codes "/p.png" ∷ []

length-picture : (n : ℕ) → length (picture n) ≤ n
length-picture zero = omega arith
length-picture (suc n) = omega arith

abbrev site : Pages Bytes ℕ
site = record {
  status = λ req. pos 200;
  is_html = λ req. true;
  body = λ req. some req;
  addr = λ req. 7;
  extract_urls = λ n body base. picture n;
  url2http = λ url w. (some url, w + 1);
  http_get = λ req w. (ok, req, w + 1);
}

two-counted : http_recurse site 1 (codes "/") (codes "/") 0 ≡ (2, 2)
unfolding http_recurse visit_urls visit_url
two-counted = refl

http_recurse_le_example : (http_recurse site 1 (codes "/") (codes "/") 0).0 ≤ most 1
http_recurse_le_example =
    http_recurse_le site 1 (codes "/") (codes "/") 0 (λ n body base. length-picture n)
