-- ===== src/Url/Parts.antt =====
-- What each part of `url_parse` in src/url-parse.c finds in a URL that has the part.
use freenote_probe.Base.{
  ℕ, ◌-◌, ◌<◌, true, false, none, some, ◌∷◌, ◌++◌, lt→ltb, le→ltb_false, length, ◌≡◌, ◌≢◌, refl,
  arith, All-append, append_assoc, length-append, inl, inr, Option-cases, take-length,
}
use freenote_probe.CString.{Bytes, strchr, advance}
use freenote_probe.CString.Search.{Lacks, strchr-append, strchr-Lacks, strchr_skip, strchr-length}
use freenote_probe.Url.{
  done, null_substr, field_size, below, url_scheme, url_user_pass, url_host, cut_piece,
}

-- A piece that fits its field is cut out.
pub cut_piece-append :
    (p q : Bytes)
    → length p < field_size
    → cut_piece (record { start = some (p ++ q); stop = some q }) ≡ done p
unfolding cut_piece
cut_piece-append p q h =
    let n : length (p ++ q) - length q ≡ length p = omega (arith, length-append {0} p q) in
    rw (n, lt→ltb _ _ h, take-length p q)

pub url_scheme-append :
    (scheme rest : Bytes)
    → Lacks b':' scheme
    → url_scheme (scheme ++ b':' ∷ b'/' ∷ b'/' ∷ rest)
      ≡ done (record { start = none; stop = some (b':' ∷ b'/' ∷ b'/' ∷ rest) }, some rest)
unfolding url_scheme advance
url_scheme-append scheme rest h = rw (strchr-append scheme _ b':' h, url_scheme)

pub url_user_pass_nobody :
    (rest : Bytes)
    → Lacks b'@' rest
    → url_user_pass (some rest) ≡ (null_substr, null_substr, some rest)
unfolding url_user_pass
url_user_pass_nobody rest h = rw (strchr-Lacks rest b'@' h, url_user_pass)

-- The first `b` lies behind an `a`.
strchr_second :
    (p q r : Bytes) (a b : ℕ)
    → Lacks b p
    → a ≢ b
    → Lacks b q
    → strchr (p ++ a ∷ (q ++ b ∷ r)) b ≡ some (b ∷ r)
strchr_second p q r a b hp ne hq =
    rw (← (append_assoc p (a ∷ q) (b ∷ r)))
      (strchr-append (p ++ a ∷ q) r b (All-append _ p (a ∷ q) hp (ne, hq)))

below_second : (q r : Bytes) (a b : ℕ) → below (some (a ∷ (q ++ b ∷ r))) (some (b ∷ r)) ≡ true
unfolding below
below_second q r a b = ground (arith, length-append {0} q (b ∷ r))

-- No first colon in a suffix stands before the suffix.
below_suffix : (p r : Bytes) → Lacks b':' p → below (strchr (p ++ r) b':') (some r) ≡ false
below_suffix p r h = elim (Option-cases (strchr r b':')) [
  | inl e ↦ rw (strchr_skip p r b':' h, e) (unfold below in refl)
  | inr (q, e) ↦
      rw (strchr_skip p r b':' h, e) (unfold below in le→ltb_false _ _ (strchr-length r b':' e))
]

pub url_user_pass_password :
    (user passwd rest : Bytes)
    → Lacks b':' user
    → Lacks b'@' user
    → Lacks b'@' passwd
    → url_user_pass (some (user ++ b':' ∷ (passwd ++ b'@' ∷ rest))) ≡ (
      record {
        start = some (user ++ b':' ∷ (passwd ++ b'@' ∷ rest));
        stop = some (b':' ∷ (passwd ++ b'@' ∷ rest));
      },
      record { start = some (passwd ++ b'@' ∷ rest); stop = some (b'@' ∷ rest) },
      some rest,
    )
unfolding url_user_pass
url_user_pass_password user passwd rest hc ha hp = rw (
  strchr_second user passwd rest b':' b'@' ha (λ e. omega (arith, e)) hp,
  url_user_pass,
  strchr-append user (passwd ++ b'@' ∷ rest) b':' hc,
  below_second passwd rest b':' b'@',
)

pub url_user_pass_user :
    (user rest : Bytes)
    → Lacks b':' user
    → Lacks b'@' user
    → url_user_pass (some (user ++ b'@' ∷ rest)) ≡ (
      record { start = some (user ++ b'@' ∷ rest); stop = some (b'@' ∷ rest) },
      null_substr,
      some rest,
    )
url_user_pass_user user rest hc ha =
    let at = strchr-append user rest b'@' ha in
    let order = below_suffix user (b'@' ∷ rest) hc in
    unfold url_user_pass in rw (at, url_user_pass, order)

-- A host with a port ends at the colon, and one without ends at the slash.
pub url_host_port :
    (host port path : Bytes)
    → Lacks b':' host
    → Lacks b'/' host
    → Lacks b'/' port
    → url_host (some (host ++ b':' ∷ (port ++ b'/' ∷ path))) ≡ (
      record {
        start = some (host ++ b':' ∷ (port ++ b'/' ∷ path));
        stop = some (b':' ∷ (port ++ b'/' ∷ path));
      },
      some (b':' ∷ (port ++ b'/' ∷ path)),
    )
url_host_port host port path hc hs hp =
    unfold url_host in
    rw (
      strchr_second host port path b':' b'/' hs (λ e. omega (arith, e)) hp,
      strchr-append host (port ++ b'/' ∷ path) b':' hc,
      below_second port path b':' b'/',
    )

pub url_host_plain :
    (host path : Bytes)
    → Lacks b':' host
    → Lacks b'/' host
    → url_host (some (host ++ b'/' ∷ path)) ≡ (
      record { start = some (host ++ b'/' ∷ path); stop = some (b'/' ∷ path) },
      some (b'/' ∷ path),
    )
url_host_plain host path hc hs =
    unfold url_host in rw (strchr-append host path b'/' hs, below_suffix host (b'/' ∷ path) hc)
