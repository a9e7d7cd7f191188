-- ===== src/Tests/Links.antt =====
-- src/url-extract.c on concrete pages.
use freenote_probe.Base.{
  ℕ, none, some, [], ◌∷◌, ◌++◌, ◌==◌, if◌then◌else◌, ◌≡◌, refl, replicate, false,
}
use freenote_probe.CString.{Bytes, codes, streq, strchr}
use freenote_probe.CString.Search.{Lacks, Lacks-strchr}
use freenote_probe.Ran.{returns, aborts}
use freenote_probe.Extract.{
  index_of, domain_end, get_domain, last_of, copy_path, get_path, complete_url, trim, only_url,
  urls_only, cut_loop, url_cut, match_text, append_from, append_match, iterate_from, regex_iterate,
  gather_urls, extract_urls,
}
use freenote_probe.Extract.Complete.{domain_text, page_url, complete_url-page_url}

complete_url-page_url_example :
    (path : Bytes) × (get_path
        (page_url (codes "http") (codes "a.org") (codes "d" ∷ []) (codes "i.html"))
      ≡ returns path)
    × ((u : Bytes)
        → Lacks b':' u
        → (complete_url
              (b'/' ∷ u)
              (get_domain
                (page_url (codes "http") (codes "a.org") (codes "d" ∷ []) (codes "i.html")))
              path
            ≡ domain_text (codes "http") (codes "a.org") ++ b'/' ∷ u))
    × ((c : ℕ) (u : Bytes)
        → Lacks b':' (c ∷ u)
        → (c == b'/') ≡ false
        → (complete_url
              (c ∷ u)
              (get_domain
                (page_url (codes "http") (codes "a.org") (codes "d" ∷ []) (codes "i.html")))
              path
            ≡ page_url (codes "http") (codes "a.org") (codes "d" ∷ []) (c ∷ u)))
complete_url-page_url_example =
    complete_url-page_url (codes "http") (codes "a.org") (codes "d" ∷ []) (codes "i.html")
      (Lacks-strchr (codes "http") b':' (unfold strchr in refl))
      (Lacks-strchr (codes "a.org") b'/' (unfold strchr in refl))
      (Lacks-strchr (codes "i.html") b'/' (unfold strchr in refl))

abbrev page : Bytes
page = codes "x a.gif b.gif"

abbrev quoted : Bytes
quoted = codes " src='a.gif' "

abbrev two_signs : Bytes
two_signs = codes "x src== y"

-- The attribute of this page aborts the program: the begin of its trimmed match is behind its end.
two_signs_abort :
    extract_urls
      (λ line. if streq line two_signs then some (1, 7) else none)
      (replicate 32 none)
      32
      two_signs
      (codes "http://a.org/")
    ≡ aborts
unfolding extract_urls gather_urls regex_iterate iterate_from append_match append_from match_text
    url_cut cut_loop urls_only only_url trim strchr streq get_path last_of copy_path domain_end
    index_of
two_signs_abort = refl
