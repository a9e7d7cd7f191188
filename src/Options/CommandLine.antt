-- ===== src/Options/CommandLine.antt =====
-- src/options.c: the command line (`read_opt` to `read_cli_opts`) and `parse_options`.
use freenote_probe.Base.{
  ℕ, ◌-◌, Bool, true, false, ◌&&◌, Option, none, some, List, [], ◌∷◌, ◌==◌, if◌then◌else◌, length,
  take, drop,
}
use freenote_probe.Base.Int.{ℤ, pos, negsuc, ltb_ℤ, eq_ℤ}
use freenote_probe.CString.{Bytes, codes, starts_with, strchr, isdigit}
use freenote_probe.Options.{
  Options, Ran, returns, aborts, exits, faults, ◌>>=◌, matches, set_opt, read_int_opt,
}
use freenote_probe.Options.Rows.{CliOpt}

abbrev pub with_value : Bytes → CliOpt → CliOpt
with_value v r = record r { value = some v }

abbrev pub all_digits : Bytes → Bool
all_digits [] = true
all_digits (c ∷ s) = isdigit c && all_digits s

abbrev pub int_value : CliOpt → Option Bytes → Bool × CliOpt
int_value r none = (false, with_value (codes "1") r)
int_value r (some s) =
    if all_digits s then (true, with_value s r) else (false, with_value (codes "1") r)

abbrev pub str_value : CliOpt → Option Bytes → Ran (Bool × CliOpt)
str_value r none = exits
str_value r (some s) = returns (true, with_value s r)

-- The row with its new value, and whether `next` was its argument.
unfoldable pub read_opt : CliOpt → Option Bytes → Ran (Bool × CliOpt)
read_opt r next =
    if r.type == b's'
    then str_value r next
    else if r.type == b'i'
    then returns (int_value r next)
    else aborts

-- The loop of both searches: every row that passes the test reads the argument, up to the first row
-- that takes it.
unfoldable pub read_rows : (CliOpt → Bool) → Option Bytes → List CliOpt → Ran (Bool × List CliOpt)
read_rows test next [] = returns (false, [])
read_rows test next (r ∷ rows) =
    let rest = read_rows test next rows in
    if test r
    then (read_opt r next >>= λ (taken, r2).
        (if taken then returns (true, r2 ∷ rows) else (rest >>= λ (t, rs). returns (t, r2 ∷ rs))))
    else (rest >>= λ (t, rs). returns (t, r ∷ rs))

unfoldable pub get_long_opt : Bytes → Option Bytes → List CliOpt → Ran (Bool × List CliOpt)
get_long_opt opt next rows = read_rows (matches opt) next rows

-- `opt` is the first character of the text; rows without a short name have the number 0.
unfoldable pub get_short_opt : ℕ → Option Bytes → List CliOpt → Ran (Bool × List CliOpt)
get_short_opt opt next rows = read_rows (λ (r : CliOpt). opt == r.sname) next rows

-- What an argument tells the loop: go on, with the next argument taken or not, or stop with an error.
pub data Arg : Type 0 where
  goes_on : Bool → List CliOpt → Arg
  refused : List CliOpt → Arg

abbrev pub head? : List Bytes → Option Bytes
head? [] = none
head? (a ∷ rest) = some a

-- An argument "--name=value", with `eq` the text from the '=' on.
unfoldable pub long_with_eq : Bytes → Bytes → List CliOpt → Ran Arg
long_with_eq arg eq rows =
    if length eq == 1
    then returns (refused rows)
    else (get_long_opt (drop 2 (take (length arg - length eq) arg)) (some (drop 1 eq)) rows
        >>= λ (taken, rs). returns (goes_on false rs))

-- An argument "--name" takes the next one, unless it has an '='.
abbrev pub long_at : Bytes → Option Bytes → List CliOpt → Option Bytes → Ran Arg
long_at arg next rows (some eq) = long_with_eq arg eq rows
long_at arg next rows none =
    get_long_opt (drop 2 arg) next rows >>= λ (taken, rs). returns (goes_on taken rs)

unfoldable pub long_arg : Bytes → Option Bytes → List CliOpt → Ran Arg
long_arg arg next rows = long_at arg next rows (strchr arg b'=')

-- An argument "-x" or "-xvalue". A lone "-" is read behind its end.
unfoldable pub short_arg : Bytes → Option Bytes → List CliOpt → Ran Arg
short_arg (dash ∷ c ∷ []) next rows =
    get_short_opt c next rows >>= λ (taken, rs). returns (goes_on taken rs)
short_arg (dash ∷ c ∷ v ∷ more) next rows =
    get_short_opt c (some (v ∷ more)) rows >>= λ (taken, rs). returns (goes_on false rs)
short_arg (dash ∷ []) next rows = faults
short_arg [] next rows = faults

unfoldable pub read_arg : Bytes → Option Bytes → List CliOpt → Ran Arg
read_arg arg next rows =
    if starts_with arg (codes "--")
    then long_arg arg next rows
    else if starts_with arg (codes "-")
    then short_arg arg next rows
    else returns (refused rows)

-- The loop stops at an argument that it refuses.
abbrev pub proceed : (Bool → List CliOpt → Ran (ℤ × List CliOpt)) → Arg → Ran (ℤ × List CliOpt)
proceed rest (refused rows) = returns (negsuc 0, rows)
proceed rest (goes_on taken rows) = rest taken rows

-- The loop over the arguments behind the program's name. `skip` says that the argument was taken by
-- the one before it.
unfoldable pub read_cli_opts : Bool → List Bytes → List CliOpt → Ran (ℤ × List CliOpt)
read_cli_opts skip [] rows = returns (pos 0, rows)
read_cli_opts true (arg ∷ args) rows = read_cli_opts false args rows
read_cli_opts false (arg ∷ args) rows =
    read_arg arg (head? args) rows >>= proceed (λ taken rs. read_cli_opts taken args rs)

unfoldable pub minimum_interval : Options → Ran Options
minimum_interval o = read_int_opt o (codes "interval") >>= λ (n, o1).
    (if ltb_ℤ n (pos 15) then set_opt o1 (codes "interval") (codes "15") else returns o1)

-- The second option is read only if the first one is not 0.
unfoldable pub no_keepalive : Options → Ran Options
no_keepalive o = read_int_opt o (codes "limit-runs") >>= λ (n, o1).
    (if eq_ℤ n (pos 0)
      then returns o1
      else (read_int_opt o1 (codes "keepalive") >>= λ (k, o2).
          (if eq_ℤ k (pos 0) then returns o2 else set_opt o2 (codes "keepalive") (codes "0"))))

-- Without DEBUG.
unfoldable pub parse_options : Options → List Bytes → Ran (ℤ × Options)
parse_options o args = read_cli_opts false args o.rows >>= λ (r, rows).
    minimum_interval (record o { rows = rows }) >>= λ o1. no_keepalive o1 >>= λ o2. returns (r, o2)
