-- ===== src/Url.antt =====
-- src/url-parse.c: `url_parse` and its parts. A pointer into the URL is the suffix that it points
-- at and a null pointer is `none`, so a pointer is below another if its suffix is the longer one.
pub mod Parts
pub mod Accepts
pub mod Limits
use freenote_probe.Base.{
  ℕ, ◌+◌, ◌-◌, Bool, true, false, ◌&&◌, Option, none, some, List, [], ◌∷◌, ltb, ◌==◌, if◌then◌else◌,
  length, take, drop,
}
use freenote_probe.Base.Int.{ℤ, pos}
use freenote_probe.CString.{Bytes, strchr, advance, atoi}

-- A call returns, ends in `abort`, or leaves a buffer or a string.
pub data Outcome {ℓ} (A : Type ℓ) : Type ℓ where
  done : A → Outcome A
  aborted : Outcome A
  fault : Outcome A

infixl 5 ◌>>=◌
abbrev pub ◌>>=◌ {ℓ κ} : {A : Type ℓ} {B : Type κ} → Outcome A → (A → Outcome B) → Outcome B
done a >>= f = f a
aborted >>= f = aborted
fault >>= f = fault

abbrev pub Pointer : Type 0
Pointer = Option Bytes

pub record Substr : Type 0 where
  pub start : Pointer
  pub stop : Pointer

abbrev pub null_substr : Substr
null_substr = record { start = none; stop = none }

pub record ParsedUrl : Type 0 where
  pub scheme : Bytes
  pub user : Bytes
  pub passwd : Bytes
  pub host : Bytes
  pub port : ℤ
  pub path : Bytes

-- The size of each text field of `parsed_url`.
abbrev pub field_size : ℕ
field_size = 1024

-- `p && p < q` on pointers into one string. No pointer is below null.
unfoldable pub below : Pointer → Pointer → Bool
below none q = false
below (some p) none = false
below (some p) (some q) = ltb (length q) (length p)

-- The pointer one character on; it is used where the character is there.
unfoldable pub behind : Pointer → Pointer
behind none = none
behind (some p) = some (drop 1 p)

-- The scheme, and the cursor three characters behind its colon, which must lie in the string.
unfoldable pub url_scheme : Bytes → Outcome (Substr × Pointer)
url_scheme start = elim (strchr start b':') [
  | none ↦ done (record { start = some start; stop = none }, none)
  | some stop ↦ elim (advance 3 stop) [
    | none ↦ fault
    | some cursor ↦ done (record { start = none; stop = some stop }, some cursor)
  ]
]

-- The user and the password, and the cursor behind the `@` if there is one.
unfoldable pub url_user_pass : Pointer → Substr × Substr × Pointer
unfolding behind
url_user_pass none = (null_substr, null_substr, none)
url_user_pass (some start) =
    let colo = strchr start b':' in
    elim (strchr start b'@') [
      | none ↦ (null_substr, null_substr, some start)
      | some atloc ↦
          if below colo (some atloc)
          then (
            record { start = some start; stop = colo },
            record { start = behind colo; stop = some atloc },
            some (drop 1 atloc),
          )
          else (record { start = some start; stop = some atloc }, null_substr, some (drop 1 atloc))
    ]

-- The host, which ends at the colon if that stands before the slash, and else at the slash.
unfoldable pub url_host : Pointer → Substr × Pointer
url_host none = (null_substr, none)
url_host (some start) =
    let colo = strchr start b':' in
    let slash = strchr start b'/' in
    let stop = if below colo slash then colo else slash in
    (record { start = some start; stop = stop }, stop)

-- The port, whose end is not stored, and the cursor at the path.
unfoldable pub url_port : Pointer → Substr × Pointer
url_port none = (null_substr, none)
url_port (some []) = (null_substr, some [])
url_port (some (c ∷ start)) =
    if c == b':'
    then (record { start = some start; stop = none }, strchr (c ∷ start) b'/')
    else (null_substr, some (c ∷ start))

unfoldable pub url_path : Pointer → Substr
url_path none = null_substr
url_path (some start) = record { start = some start; stop = some [] }

-- A copy into a field of `field_size` bytes, with its terminator. A null start gives the empty
-- string; a start with no end aborts.
unfoldable pub cut_piece : Substr → Outcome Bytes
cut_piece s = elim s.start [
  | none ↦ done []
  | some start ↦ elim s.stop [
    | none ↦ aborted
    | some stop ↦
        let n = length start - length stop in
        if ltb n field_size then done (take n start) else fault
  ]
]

unfoldable pub port_number : Substr → ℤ
port_number port = elim port.start [ none ↦ pos 0 | some start ↦ atoi start ]

-- `url_parse`: the cursor goes through the parts, and then each part is cut out.
unfoldable pub url_parse : Bytes → Outcome ParsedUrl
url_parse url = url_scheme url >>= λ scheme.
    (let user = url_user_pass scheme.1 in
      let host = url_host user.2 in
      let port = url_port host.1 in
      let path = url_path port.1 in
      cut_piece scheme.0 >>= λ scheme_text.
      (cut_piece user.0 >>= λ user_text.
      (cut_piece user.1 >>= λ passwd_text.
      (cut_piece host.0 >>= λ host_text.
      (cut_piece path >>= λ path_text. done (record {
        scheme = scheme_text;
        user = user_text;
        passwd = passwd_text;
        host = host_text;
        port = port_number port.0;
        path = path_text;
      }))))))
