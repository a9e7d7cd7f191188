-- ===== src/Options/Assignment.antt =====
-- src/options.c: an argument "--name=value" sets its option.
use freenote_probe.Base.{
  ℕ, zero, suc, ◌+◌, ◌-◌, ◌≤◌, ◌<◌, Bool, true, false, Option, some, List, [], ◌∷◌, ◌++◌, ◌==◌, ◌≡◌,
  inl, inr, refl, ap, ◌∙◌, arith, Bool-cases, get_elem?, set, length, take,
}
use freenote_probe.CString.{Bytes, codes, strchr}
use freenote_probe.CString.Search.{Lacks, strchr-append, take-sub_length, starts_with-append}
use freenote_probe.Options.{Ran, returns, ◌>>=◌, matches}
use freenote_probe.Options.Rows.{CliOpt}
use freenote_probe.Options.Search.{hits_from}
use freenote_probe.Options.CommandLine.{
  read_opt, read_rows, get_long_opt, long_with_eq, long_at, long_arg, read_arg, read_cli_opts, Arg,
  goes_on, proceed, head?,
}

hits-bound :
    (test : CliOpt → Bool) (n j : ℕ) (rows : List CliOpt) → hits_from test n rows ≡ j ∷ [] → n ≤ j
hits-bound test n j [] e = absurd cc
hits-bound test n j (r ∷ rows) e = elim (Bool-cases (test r)) [
  | inl t ↦
      let all : n ∷ hits_from test (suc n) rows ≡ j ∷ [] = rw t at e in
      let z : n ≡ j = cc in omega (arith, z)
  | inr t ↦ omega (arith, hits-bound test (suc n) j rows (rw t at e))
]

-- The row that alone passes the test takes the argument.
read_rows_only :
    (test : CliOpt → Bool) (next : Option Bytes) (n k : ℕ) (rows : List CliOpt) (r r2 : CliOpt)
    → hits_from test n rows ≡ (n + k) ∷ []
    → get_elem? rows k ≡ some r
    → read_opt r next ≡ returns (true, r2)
    → read_rows test next rows ≡ returns (true, set rows k r2)
unfolding read_rows
read_rows_only test next n k [] r r2 only slot taken = cc
read_rows_only test next n zero (q ∷ rows) r r2 only slot taken = elim (Bool-cases (test q)) [
  | inl t ↦ let same : q ≡ r = cc in rw (t, same, taken) refl
  | inr t ↦ absurd (let z = hits-bound test (suc n) (n + 0) rows (rw t at only) in omega (arith, z))
]
read_rows_only test next n (suc k) (q ∷ rows) r r2 only slot taken = elim (Bool-cases (test q)) [
  | inl t ↦ absurd (
      let all : n ∷ hits_from test (suc n) rows ≡ (n + suc k) ∷ [] = rw t at only in
      let z : n ≡ n + suc k = cc in omega (arith, z))
  | inr t ↦
      let e : n + suc k ≡ suc n + k = omega arith in
      rw
        (
          t,
          read_rows_only test next (suc n) k rows r r2 ((rw t at only) ∙ ap (λ j. j ∷ []) e) slot
              taken,
        )
        refl
]

-- An argument "--name=value", where the name has no '=' and matches one option of the table, which
-- takes the value, changes that option and no other, and the loop goes on behind it.
pub read_cli_opts_long :
    (name value : Bytes) (args : List Bytes) (rows : List CliOpt) (k : ℕ) (r r2 : CliOpt)
    → Lacks b'=' name
    → 0 < length value
    → hits_from (matches name) 0 rows ≡ k ∷ []
    → get_elem? rows k ≡ some r
    → read_opt r (some value) ≡ returns (true, r2)
    → read_cli_opts false ((codes "--" ++ name ++ b'=' ∷ value) ∷ args) rows
      ≡ read_cli_opts false args (set rows k r2)
unfolding read_cli_opts
read_cli_opts_long name value args rows k r r2 lacks some_value only slot taken =
    ap (λ (m : Ran Arg). m >>= proceed (λ t rs. read_cli_opts t args rs)) one
  where
    arg : Bytes
    arg = codes "--" ++ name ++ b'=' ∷ value

    found : strchr arg b'=' ≡ some (b'=' ∷ value)
    found =
        strchr-append (codes "--" ++ name) value b'='
          (λ e. omega (arith, e), (λ e. omega (arith, e), lacks))

    cut : take (length arg - length (b'=' ∷ value)) arg ≡ codes "--" ++ name
    cut = take-sub_length (codes "--" ++ name) (b'=' ∷ value)

    read : get_long_opt name (some value) rows ≡ returns (true, set rows k r2)
    read =
        unfold get_long_opt in
        read_rows_only (matches name) (some value) 0 k rows r r2
          (only ∙ ap (λ j. j ∷ []) (omega arith)) slot taken

    not_empty : (length (b'=' ∷ value) == 1) ≡ false
    not_empty = ground (arith, some_value)

    given : long_with_eq arg (b'=' ∷ value) rows ≡ returns (goes_on false (set rows k r2))
    given = unfold long_with_eq in rw (not_empty, cut, read) refl

    one : read_arg arg (head? args) rows ≡ returns (goes_on false (set rows k r2))
    one =
        unfold read_arg long_arg in
        rw (starts_with-append (codes "--") (name ++ b'=' ∷ value))
          (ap (long_at arg (head? args) rows) found ∙ given)
