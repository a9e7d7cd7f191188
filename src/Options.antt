-- ===== src/Options.antt =====
-- src/options.c: the table of options, and reading and changing their values. The children model the
-- command line and the help text.
pub mod Rows
pub mod Search
pub mod CommandLine
pub mod Usage
pub mod Values
pub mod Checked
pub mod Arguments
pub mod Assignment
pub use freenote_probe.Ran.{
  Ran, returns, aborts, exits, faults, waits, ◌>>=◌, Always, Always->>=, Always-weaken,
}
use mathlib.Core.Option
use freenote_probe.Options.Rows.{CliOpt}
use freenote_probe.Base.{
  ℕ, suc, ◌+◌, Bool, true, false, ◌&&◌, Option, none, some, List, [], ◌∷◌, ◌++◌, ◌==◌,
  if◌then◌else◌, length, get_elem?, set, take, drop, map,
}
use freenote_probe.Base.Int.{ℤ}
use freenote_probe.CString.{Bytes, codes, starts_with, atoi}

-- The table, and the static variables `i` of `read_int_opt` and of `opt_is_valid_i`.
pub record Options : Type 0 where
  pub rows : List CliOpt
  pub int_cursor : ℕ
  pub valid_cursor : ℕ

-- !strncmp(opt, cli_opts[i].name, strlen(cli_opts[i].name))
unfoldable pub matches : Bytes → CliOpt → Bool
matches opt r = starts_with opt r.name

-- The first index that passes the test.
unfoldable pub first : (CliOpt → Bool) → List CliOpt → Option ℕ
first test [] = none
first test (r ∷ rows) = if test r then some 0 else Option.map suc (first test rows)

-- The second loop of a search stops at `start`.
unfoldable pub wrapped : ℕ → Option ℕ → Option ℕ × ℕ
wrapped start (some n) = (some n, n)
wrapped start none = (none, start)

unfoldable pub onward : ℕ → ℕ → Option ℕ × ℕ → Option ℕ → Option ℕ × ℕ
onward start end rest (some n) = (some (start + n), start + n)
onward start end rest none = if start == 0 then (none, end) else rest

-- The two loops of a search with a static variable that stands at `start`: from there to the end of
-- the table, then from 0 to `start`. The second result is where the variable stands afterwards.
unfoldable pub search_from : (CliOpt → Bool) → List CliOpt → ℕ → Option ℕ × ℕ
unfolding first wrapped onward
search_from test rows start =
    onward start (length rows) (wrapped start (first test (take start rows)))
      (first test (drop start rows))

abbrev pub moved : Options → Option ℕ × ℕ → Option ℕ × Options
moved o (found, cursor) = (found, record o { valid_cursor = cursor })

-- The index of the option and the table with the variable moved.
unfoldable pub opt_is_valid_i : Options → Bytes → Option ℕ × Options
opt_is_valid_i o opt = moved o (search_from (matches opt) o.rows o.valid_cursor)

unfoldable pub opt_is_valid : Options → Bytes → Bool × Options
opt_is_valid o opt =
    let (found, next) = opt_is_valid_i o opt in (elim found [ none ↦ false | some n ↦ true ], next)

abbrev pub in_array : Option CliOpt → Ran CliOpt
in_array none = faults
in_array (some r) = returns r

-- The row that a search found. An option that no search finds is a mistake of the program, which
-- aborts.
abbrev pub found_row : List CliOpt → Option ℕ → Ran (ℕ × CliOpt)
found_row rows none = aborts
found_row rows (some n) = in_array (get_elem? rows n) >>= λ r. returns (n, r)

-- The value of a row, or its default, which is null for one option.
abbrev pub value_or : Option Bytes → Option Bytes → Option Bytes
value_or default none = default
value_or default (some v) = some v

abbrev pub current : CliOpt → Option Bytes
current r = value_or r.def_val r.value

abbrev pub store_value : List CliOpt → Bytes → Option ℕ × Options → Ran Options
store_value rows optval (found, next) = found_row rows found >>= λ (n, r).
    returns (record next { rows = set rows n (record r { value = some optval }) })

unfoldable pub set_opt : Options → Bytes → Bytes → Ran Options
set_opt o optname optval = store_value o.rows optval (opt_is_valid_i o optname)

abbrev pub load : List CliOpt → Option ℕ × Options → Ran (Option Bytes × Options)
load rows (found, next) = found_row rows found >>= λ (n, r). returns (current r, next)

unfoldable pub read_str_opt : Options → Bytes → Ran (Option Bytes × Options)
read_str_opt o opt = load o.rows (opt_is_valid_i o opt)

abbrev pub unset : Option Bytes → Bool
unset none = true
unset (some v) = false

abbrev pub load_default : List CliOpt → Option ℕ × Options → Ran (Bool × Options)
load_default rows (found, next) = found_row rows found >>= λ (n, r). returns (unset r.value, next)

unfoldable pub is_default_opt : Options → Bytes → Ran (Bool × Options)
is_default_opt o opt = load_default o.rows (opt_is_valid_i o opt)

unfoldable pub int_matches : Bytes → CliOpt → Bool
unfolding matches
int_matches opt r = r.type == b'i' && matches opt r

-- atoi of a null pointer is a fault.
abbrev pub int_of : Option Bytes → Ran ℤ
int_of none = faults
int_of (some v) = returns (atoi v)

abbrev pub load_int : Options → Option ℕ × ℕ → Ran (ℤ × Options)
load_int o (found, cursor) = found_row o.rows found >>= λ (n, r).
    int_of (current r) >>= λ i. returns (i, record o { int_cursor = cursor })

unfoldable pub read_int_opt : Options → Bytes → Ran (ℤ × Options)
read_int_opt o opt = load_int o (search_from (int_matches opt) o.rows o.int_cursor)

-- strdup of a null pointer is a fault.
unfoldable pub read_str_opt_dup : Options → Bytes → Ran (Bytes × Options)
unfolding read_str_opt
read_str_opt_dup o opt =
    read_str_opt o opt >>= λ (v, next). elim v [ none ↦ faults | some s ↦ returns (s, next) ]

-- A leading "~/" stands for the directory in HOME, or for the current one without HOME.
unfoldable pub expand : Option Bytes → Bytes → Bytes
unfolding starts_with
expand home file =
    if starts_with file (codes "~/")
    then elim home [ none ↦ [] | some h ↦ h ] ++ drop 1 file
    else file

unfoldable pub read_file_opt_dup : Option Bytes → Options → Bytes → Ran (Bytes × Options)
unfolding read_str_opt_dup expand
read_file_opt_dup home o opt = read_str_opt_dup o opt >>= λ (s, next). returns (expand home s, next)

unfoldable pub finish_options : Options → Options
finish_options o = record o { rows = map (λ (r : CliOpt). record r { value = none }) o.rows }
