-- ===== src/Url/Accepts.antt =====
-- URLs `scheme://[user[:passwd]@]host[:port]/path` and what `url_parse` returns for them.
use freenote_probe.Base.{
  ◌+◌, ◌<◌, Option, none, some, [], ◌∷◌, ◌++◌, length, ◌≡◌, refl, arith, append-nil,
}
use freenote_probe.Base.Int.{ℤ, pos}
use freenote_probe.CString.{Bytes, atoi}
use freenote_probe.CString.Search.{Lacks, strchr-append}
use freenote_probe.Url.{
  done, Pointer, Substr, null_substr, field_size, url_user_pass, url_host, url_port, url_path,
  cut_piece, port_number, url_parse,
}
use freenote_probe.Url.Parts.{
  cut_piece-append, url_scheme-append, url_user_pass_nobody, url_user_pass_password,
  url_user_pass_user, url_host_port, url_host_plain,
}

pub data UserInfo : Type 0 where
  nobody : UserInfo
  named : Bytes → UserInfo
  secured : Bytes → Bytes → UserInfo

-- What stands before `rest` for the user.
abbrev pub user_text : UserInfo → Bytes → Bytes
user_text nobody rest = rest
user_text (named u) rest = u ++ b'@' ∷ rest
user_text (secured u p) rest = u ++ b':' ∷ (p ++ b'@' ∷ rest)

abbrev pub user_of : UserInfo → Bytes
user_of nobody = []
user_of (named u) = u
user_of (secured u p) = u

abbrev pub passwd_of : UserInfo → Bytes
passwd_of (secured u p) = p
passwd_of _ = []

-- A port, or none, and then the path, whose slash is written here.
abbrev pub port_text : Option Bytes → Bytes → Bytes
port_text none path = b'/' ∷ path
port_text (some p) path = b':' ∷ (p ++ b'/' ∷ path)

abbrev pub url_text : Bytes → UserInfo → Bytes → Option Bytes → Bytes → Bytes
url_text scheme user host port path =
    scheme ++ b':' ∷ b'/' ∷ b'/' ∷ user_text user (host ++ port_text port path)

-- A user that can be read back: no `@`, and no colon in the name. With no user there is no `@` in all
-- that follows.
abbrev pub UserFits : UserInfo → Bytes → Type 0
UserFits nobody rest = Lacks b'@' rest
UserFits (named u) rest = Lacks b':' u × Lacks b'@' u × (length u < field_size)
UserFits (secured u p) rest =
    Lacks b':' u × Lacks b'@' u × Lacks b'@' p × (length u < field_size) × (length p < field_size)

abbrev pub PortFits : Option Bytes → Type 0
PortFits none = Unit
PortFits (some p) = Lacks b'/' p

abbrev pub port_of : Option Bytes → Bytes → ℤ
port_of none path = pos 0
port_of (some p) path = atoi (p ++ b'/' ∷ path)

-- The two pieces and the cursor that `url_user_pass` finds.
user_found :
    (user : UserInfo) (rest : Bytes)
    → UserFits user rest
    → (u : Substr) × (p : Substr) × (url_user_pass (some (user_text user rest)) ≡ (u, p, some rest))
      × (cut_piece u ≡ done (user_of user))
      × (cut_piece p ≡ done (passwd_of user))
user_found nobody rest h = (
  null_substr,
  null_substr,
  url_user_pass_nobody rest h,
  unfold cut_piece in refl,
  unfold cut_piece in refl,
)
user_found (named u) rest (hc, ha, hl) = (
  _,
  _,
  url_user_pass_user u rest hc ha,
  cut_piece-append u (b'@' ∷ rest) hl,
  unfold cut_piece in refl,
)
user_found (secured u p) rest (hc, ha, hp, hl, hl') = (
  _,
  _,
  url_user_pass_password u p rest hc ha hp,
  cut_piece-append u _ hl,
  cut_piece-append p _ hl',
)

host_found :
    (host : Bytes) (port : Option Bytes) (path : Bytes)
    → Lacks b':' host
    → Lacks b'/' host
    → PortFits port
    → length host < field_size
    → (h : Substr) × (url_host (some (host ++ port_text port path))
        ≡ (h, some (port_text port path)))
      × (cut_piece h ≡ done host)
host_found host none path hc hs hp hl =
    (_, url_host_plain host path hc hs, cut_piece-append host (b'/' ∷ path) hl)
host_found host (some p) path hc hs hp hl =
    (_, url_host_port host p path hc hs hp, cut_piece-append host _ hl)

port_found :
    (port : Option Bytes) (path : Bytes)
    → PortFits port
    → (p : Substr) × (url_port (some (port_text port path)) ≡ (p, some (b'/' ∷ path)))
      × (port_number p ≡ port_of port path)
unfolding url_port port_number
port_found none path h = (null_substr, refl, refl)
port_found (some p) path h = (
  record { start = some (p ++ b'/' ∷ path); stop = none },
  rw (strchr-append (b':' ∷ p) path b'/' (λ e. omega (arith, e), h)),
  refl,
)

pub null_piece : (stop : Pointer) → cut_piece (record { start = none; stop = stop }) ≡ done []
unfolding cut_piece
null_piece stop = refl

path_found :
    (path : Bytes)
    → length path + 1 < field_size
    → cut_piece (url_path (some (b'/' ∷ path))) ≡ done (b'/' ∷ path)
path_found path h =
    unfold url_path in rw (append-nil path) at (cut_piece-append (b'/' ∷ path) [] (omega arith))

-- A URL `scheme://[user[:passwd]@]host[:port]/path` whose parts fit their fields is taken apart into
-- its user, password, host, port and path, with 0 for a port that is not given. The scheme of the
-- result is empty whatever the scheme of the URL.
pub url_parse-url_text :
    (scheme : Bytes) (user : UserInfo) (host : Bytes) (port : Option Bytes) (path : Bytes)
    → Lacks b':' scheme
    → UserFits user (host ++ port_text port path)
    → Lacks b':' host
    → Lacks b'/' host
    → PortFits port
    → length host < field_size
    → length path + 1 < field_size
    → url_parse (url_text scheme user host port path)
      ≡ done (record {
        scheme = [];
        user = user_of user;
        passwd = passwd_of user;
        host = host;
        port = port_of port path;
        path = b'/' ∷ path;
      })
url_parse-url_text scheme user host port path hs hu hc hh hp hl hl' =
    let (u, p, at_user, user_cut, passwd_cut) = user_found user (host ++ port_text port path) hu in
    let (h, at_host, host_cut) = host_found host port path hc hh hp hl in
    let (q, at_port, number) = port_found port path hp in
    unfold url_parse in
    rw (
      url_scheme-append scheme (user_text user (host ++ port_text port path)) hs,
      null_piece,
      at_user,
      at_host,
      at_port,
      user_cut,
      passwd_cut,
      host_cut,
      path_found path hl',
      number,
    )
