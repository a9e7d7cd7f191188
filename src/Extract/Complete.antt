-- ===== src/Extract/Complete.antt =====
-- src/url-extract.c: a URL of a page is completed by the parts of the page's own URL.
use freenote_probe.Base.{
  ℕ, ◌+◌, ◌-◌, true, false, none, some, List, [], ◌∷◌, ◌++◌, ◌==◌, leb, ◌≡◌, refl, sym, ap, ◌∙◌,
  arith, length, take, drop, length-append, take-length, drop-length, drop_past, append_assoc,
}
use freenote_probe.CString.{Bytes, starts_with}
use freenote_probe.CString.Search.{Lacks, strchr-Lacks}
use freenote_probe.Ran.{returns}
use freenote_probe.Extract.{
  index_of, domain_end, get_domain, last_of, copy_path, get_path, path_to, completed, complete_url,
}

index_of-append : (c : ℕ) (p r : Bytes) → Lacks c p → index_of c (p ++ c ∷ r) ≡ length p
unfolding index_of
index_of-append c [] r h = ground arith
index_of-append c (x ∷ p) r (hx, h) = ground (arith, index_of-append c p r h)

last_of-Lacks : (c : ℕ) (s : Bytes) → Lacks c s → last_of c s ≡ none
unfolding last_of
last_of-Lacks c [] h = refl
last_of-Lacks c (x ∷ s) (hx, h) = rw (last_of-Lacks c s h) (ground arith)

last_of-append : (c : ℕ) (p s : Bytes) → Lacks c s → last_of c (p ++ c ∷ s) ≡ some (length p)
unfolding last_of
last_of-append c [] s h = rw (last_of-Lacks c s h) (ground arith)
last_of-append c (x ∷ p) s h = rw (last_of-append c p s h) refl

-- A slash in front of each segment.
abbrev pub dirs_text : List Bytes → Bytes
dirs_text [] = []
dirs_text (s ∷ ss) = b'/' ∷ s ++ dirs_text ss

abbrev pub domain_text : Bytes → Bytes → Bytes
domain_text scheme host = scheme ++ b':' ∷ b'/' ∷ b'/' ∷ host

abbrev pub page_url : Bytes → Bytes → List Bytes → Bytes → Bytes
page_url scheme host dirs file = (domain_text scheme host ++ dirs_text dirs) ++ b'/' ∷ file

slash_next :
    (dirs : List Bytes) (file : Bytes) → (r : Bytes) × (dirs_text dirs ++ b'/' ∷ file ≡ b'/' ∷ r)
slash_next [] file = (file, refl)
slash_next (s ∷ ss) file = (_, refl)

module _ (scheme host : Bytes) (dirs : List Bytes) (file : Bytes) (no_colon : Lacks b':' scheme)
    (no_slash : Lacks b'/' host) (last_part : Lacks b'/' file) where
  flat :
      page_url scheme host dirs file
      ≡ scheme ++ b':' ∷ b'/' ∷ b'/' ∷ (host ++ (dirs_text dirs ++ b'/' ∷ file))
  flat =
      append_assoc (domain_text scheme host) (dirs_text dirs) (b'/' ∷ file)
      ∙ append_assoc scheme (b':' ∷ b'/' ∷ b'/' ∷ host) (dirs_text dirs ++ b'/' ∷ file)

  domain_end_at :
      (r : Bytes)
      → domain_end (scheme ++ b':' ∷ b'/' ∷ b'/' ∷ (host ++ b'/' ∷ r))
        ≡ length scheme + 3 + length host
  unfolding domain_end
  domain_end_at r =
      let rest : Bytes = b':' ∷ b'/' ∷ b'/' ∷ (host ++ b'/' ∷ r) in
      ap (λ k. k + 3 + index_of b'/' (drop (k + 3) (scheme ++ rest)))
        (index_of-append b':' scheme _ no_colon)
      ∙ ap (λ s. length scheme + 3 + index_of b'/' s) (drop_past scheme rest 3)
      ∙ ap (λ n. length scheme + 3 + n) (index_of-append b'/' host r no_slash)

  domain_end-page_url :
      domain_end (page_url scheme host dirs file) ≡ length (domain_text scheme host)
  unfolding domain_end
  domain_end-page_url =
      let (r, e) = slash_next dirs file in
      ap domain_end (flat ∙ ap (λ t. scheme ++ b':' ∷ b'/' ∷ b'/' ∷ (host ++ t)) e)
      ∙ domain_end_at r
      ∙ omega (arith, length-append {0} scheme (b':' ∷ b'/' ∷ b'/' ∷ host))

  get_domain-page_url : get_domain (page_url scheme host dirs file) ≡ domain_text scheme host
  unfolding get_domain
  get_domain-page_url =
      ap (λ n. take n (page_url scheme host dirs file)) domain_end-page_url
      ∙ ap (take (length (domain_text scheme host)))
          (append_assoc (domain_text scheme host) (dirs_text dirs) (b'/' ∷ file))
      ∙ take-length (domain_text scheme host) (dirs_text dirs ++ b'/' ∷ file)

  get_path-page_url :
      get_path (page_url scheme host dirs file) ≡ returns (dirs_text dirs ++ b'/' ∷ [])
  unfolding get_path
  get_path-page_url =
      ap (path_to (page_url scheme host dirs file))
        (last_of-append b'/' (domain_text scheme host ++ dirs_text dirs) file last_part)
      ∙ ap
          (λ n.
            copy_path (page_url scheme host dirs file) n
              (length (domain_text scheme host ++ dirs_text dirs)))
          domain_end-page_url
      ∙ copied
    where
      size :
          length (domain_text scheme host ++ dirs_text dirs)
          ≡ length (domain_text scheme host) + length (dirs_text dirs)
      size = length-append (domain_text scheme host) (dirs_text dirs)

      fits :
          leb
            (length (domain_text scheme host))
            (length (domain_text scheme host ++ dirs_text dirs) + 1)
          ≡ true
      fits = ground (arith, size)

      from_domain :
          drop (length (domain_text scheme host)) (page_url scheme host dirs file)
          ≡ dirs_text dirs ++ b'/' ∷ file
      from_domain =
          ap (drop (length (domain_text scheme host)))
            (append_assoc (domain_text scheme host) (dirs_text dirs) (b'/' ∷ file))
          ∙ drop-length (domain_text scheme host) (dirs_text dirs ++ b'/' ∷ file)

      count :
          length (domain_text scheme host ++ dirs_text dirs) + 1 - length (domain_text scheme host)
          ≡ length (dirs_text dirs ++ b'/' ∷ [])
      count = omega (arith, size, length-append {0} (dirs_text dirs) (b'/' ∷ []))

      copied :
          copy_path
            (page_url scheme host dirs file)
            (length (domain_text scheme host))
            (length (domain_text scheme host ++ dirs_text dirs))
          ≡ returns (dirs_text dirs ++ b'/' ∷ [])
      copied =
          unfold copy_path in
          rw (fits, count, from_domain)
            (ap returns (
              ap (take (length (dirs_text dirs ++ b'/' ∷ [])))
                (sym (append_assoc (dirs_text dirs) (b'/' ∷ []) file))
              ∙ take-length (dirs_text dirs ++ b'/' ∷ []) file))

-- For a page at scheme://host/dir.../file, whose parts have no colon or slash of their own where
-- the code looks for one, the parts are found, and with them a URL without a colon is completed: one
-- that begins with a slash is taken from the host, and any other from the directory of the page.
pub complete_url-page_url :
    (scheme host : Bytes) (dirs : List Bytes) (file : Bytes)
    → Lacks b':' scheme
    → Lacks b'/' host
    → Lacks b'/' file
    → (path : Bytes) × (get_path (page_url scheme host dirs file) ≡ returns path)
      × ((u : Bytes)
          → Lacks b':' u
          → (complete_url (b'/' ∷ u) (get_domain (page_url scheme host dirs file)) path
              ≡ domain_text scheme host ++ b'/' ∷ u))
      × ((c : ℕ) (u : Bytes)
          → Lacks b':' (c ∷ u)
          → (c == b'/') ≡ false
          → (complete_url (c ∷ u) (get_domain (page_url scheme host dirs file)) path
              ≡ page_url scheme host dirs (c ∷ u)))
unfolding complete_url
complete_url-page_url scheme host dirs file colon slash last_part = (
  dirs_text dirs ++ b'/' ∷ [],
  get_path-page_url scheme host dirs file colon slash last_part,
  λ u h.
      ap (completed (b'/' ∷ u) domain path)
        (strchr-Lacks (b'/' ∷ u) b':' (λ e. omega (arith, e), h))
      ∙ unfold starts_with in ap (λ d. d ++ b'/' ∷ u) found,
  λ c u h n.
      ap (completed (c ∷ u) domain path) (strchr-Lacks (c ∷ u) b':' h)
      ∙ unfold starts_with in rw n (ap (λ d. (d ++ path) ++ c ∷ u) found ∙ joined c u),
)
  where
    domain : Bytes
    domain = get_domain (page_url scheme host dirs file)

    path : Bytes
    path = dirs_text dirs ++ b'/' ∷ []

    found : domain ≡ domain_text scheme host
    found = get_domain-page_url scheme host dirs file colon slash last_part

    joined :
        (c : ℕ) (u : Bytes)
        → (domain_text scheme host ++ path) ++ c ∷ u ≡ page_url scheme host dirs (c ∷ u)
    joined c u =
        ap (λ t. t ++ c ∷ u)
          (sym (append_assoc (domain_text scheme host) (dirs_text dirs) (b'/' ∷ [])))
        ∙ append_assoc (domain_text scheme host ++ dirs_text dirs) (b'/' ∷ []) (c ∷ u)
