-- ===== src/Url/Limits.antt =====
-- src/url-parse.c: the scheme that is lost, and the URLs on which `url_parse` aborts.
use freenote_probe.Base.{
  none, some, [], ◌∷◌, ◌++◌, ◌≡◌, refl, ap, sym, ◌∙◌, arith, inl, inr, Option-cases,
}
use freenote_probe.Base.Int.{ℤ}
use freenote_probe.CString.{Bytes, strchr}
use freenote_probe.CString.Search.{Lacks, strchr-Lacks}
use freenote_probe.Url.{
  Outcome, done, aborted, fault, ◌>>=◌, Pointer, Substr, ParsedUrl, below, url_scheme,
  url_user_pass, url_host, url_port, url_path, cut_piece, port_number, url_parse,
}
use freenote_probe.Url.Accepts.{null_piece}
use freenote_probe.Url.Parts.{url_scheme-append, url_user_pass_nobody}

>>=-eq-done {ℓ κ} :
    {A : Type ℓ} {B : Type κ} (m : Outcome A) (f : A → Outcome B) {b : B}
    → (m >>= f) ≡ done b
    → (a : A) × (m ≡ done a) × (f a ≡ done b)
>>=-eq-done (done a) f h = (a, refl, h)
>>=-eq-done aborted f h = cc
>>=-eq-done fault f h = cc

-- Where a colon is found the start of the scheme is null, and where none is found there is no end.
url_scheme-cut_piece :
    (url : Bytes) {s : Substr} {cursor : Pointer} {text : Bytes}
    → url_scheme url ≡ done (s, cursor)
    → cut_piece s ≡ done text
    → text ≡ []
unfolding url_scheme cut_piece
url_scheme-cut_piece url {s} {cursor} {text} e c = elim (Option-cases (strchr url b':')) [
  | inl missing ↦ ground (arith, missing)
  | inr (stop, found) ↦ ground (arith, found)
]

unfoldable scheme_of : Outcome ParsedUrl → Bytes
scheme_of (done r) = r.scheme
scheme_of _ = []

-- Cutting the other parts does not change the scheme.
rest_scheme :
    (user passwd host path : Outcome Bytes) (text : Bytes) (n : ℤ) {r : ParsedUrl}
    → (user >>= λ user_text.
        (passwd >>= λ passwd_text.
        (host >>= λ host_text.
        (path >>= λ path_text. done (record {
          scheme = text;
          user = user_text;
          passwd = passwd_text;
          host = host_text;
          port = n;
          path = path_text;
        })))))
      ≡ done r
    → text ≡ r.scheme
unfolding scheme_of
rest_scheme (done u) (done p) (done h) (done q) text n e = ap scheme_of e
rest_scheme (done u) (done p) (done h) aborted text n e = cc
rest_scheme (done u) (done p) (done h) fault text n e = cc
rest_scheme (done u) (done p) aborted q text n e = cc
rest_scheme (done u) (done p) fault q text n e = cc
rest_scheme (done u) aborted h q text n e = cc
rest_scheme (done u) fault h q text n e = cc
rest_scheme aborted p h q text n e = cc
rest_scheme fault p h q text n e = cc

-- The scheme that `url_parse` returns is empty, for every text that it returns on.
pub url_parse-scheme : (url : Bytes) {r : ParsedUrl} → url_parse url ≡ done r → r.scheme ≡ []
unfolding url_parse
url_parse-scheme url {r} e =
    let (s, found, e1) = >>=-eq-done (url_scheme url) _ e in
    let (scheme, cut, e2) = >>=-eq-done (cut_piece s.0) _ e1 in
    let user = url_user_pass s.1 in
    let host = url_host user.2 in
    let port = url_port host.1 in
    sym (
      rest_scheme (cut_piece user.0) (cut_piece user.1) (cut_piece host.0)
        (cut_piece (url_path port.1)) scheme (port_number port.0) e2)
    ∙ url_scheme-cut_piece url found cut

-- `url_parse` aborts the program on a URL that has no slash, no colon and no `@` behind the `://`,
-- which stands at its first colon.
pub url_parse_no_path :
    (scheme host : Bytes)
    → Lacks b':' scheme
    → Lacks b'@' host
    → Lacks b'/' host
    → Lacks b':' host
    → url_parse (scheme ++ b':' ∷ b'/' ∷ b'/' ∷ host) ≡ aborted
url_parse_no_path scheme host hs ha hh hc =
    unfold url_parse in
    rw (
      url_scheme-append scheme host hs,
      null_piece (some (b':' ∷ b'/' ∷ b'/' ∷ host)),
      url_user_pass_nobody host ha,
      null_piece none,
      no_end,
    )
  where
    no_end : cut_piece (url_host (some host)).0 ≡ aborted
    no_end =
        unfold url_host cut_piece below in rw (strchr-Lacks host b'/' hh, strchr-Lacks host b':' hc)
