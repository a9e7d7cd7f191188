-- ===== src/Tests/Settings.antt =====
-- src/options.c and src/lib/config_parse.c on concrete tables, command lines and files.
use freenote_probe.Base.{
  Bool, ◌<◌, ℕ, true, false, Option, none, some, List, [], ◌∷◌, ◌≡◌, ◌≢◌, ◌⊎◌, refl, arith,
  get_elem?, set, ◌||◌,
}
use freenote_probe.Base.Int.{ℤ, pos, ltb_ℤ, eq_ℤ}
use freenote_probe.CString.{Bytes, codes, starts_with, strchr, isspace}
use freenote_probe.Options.{Options, returns, Always, matches, set_opt, read_str_opt}
use freenote_probe.Options.Rows.{CliOpt, Build, cli_opts}
use freenote_probe.Options.CommandLine.{
  read_opt, read_cli_opts, parse_options, with_value, read_arg, long_arg, long_with_eq,
  get_long_opt, get_short_opt, short_arg, read_rows,
}
use freenote_probe.Options.Search.{hits_from}
use freenote_probe.Options.Values.{IsTable, set_opt-read_str_opt}
use freenote_probe.Options.Checked.{ReadsInt, parse_options_lem}
use freenote_probe.Config.{read_config}
use freenote_probe.Config.Precedence.{Keeps, read_config-Keeps, opened}
use freenote_probe.Config.Line.{NoSpace}

abbrev build : Build
build = record { debug = false; package_name = codes "probe"; package_version = codes "1.0" }

unfoldable table : Options
table = record { rows = cli_opts build; int_cursor = 20; valid_cursor = 7 }

table-IsTable : IsTable build table
unfolding table
table-IsTable = record { keys = refl; int_bound = omega arith; valid_bound = omega arith }

log_method_hits : hits_from (matches (codes "log-method")) 0 (cli_opts build) ≡ 5 ∷ []
unfolding matches starts_with cli_opts
log_method_hits = refl

set_opt-read_str_opt_example :
    (o2 : Options) × (set_opt table (codes "log-method") (codes "file") ≡ returns o2)
    × IsTable build o2
    × (read_str_opt o2 (codes "log-method")
        ≡ returns (some (codes "file"), record o2 { valid_cursor = 5 }))
    × ((other : Bytes) (j : ℕ)
        → hits_from (matches other) 0 (cli_opts build) ≡ j ∷ []
        → j < 20
        → 5 ≢ j
        → (w : Option Bytes) × (read_str_opt table other
            ≡ returns (w, record table { valid_cursor = j }))
          × (read_str_opt o2 other ≡ returns (w, record o2 { valid_cursor = j })))
set_opt-read_str_opt_example =
    set_opt-read_str_opt build table (codes "log-method") (codes "file") 5 table-IsTable
      log_method_hits (omega arith)

abbrev row_of : ℕ → CliOpt
row_of k = elim (get_elem? (cli_opts build) k) [
  | none ↦ record {
    name = [];
    def_val = none;
    value = none;
    flags = 0;
    type = 0;
    sname = 0;
    usage = none;
  }
  | some r ↦ r
]

abbrev changed : List CliOpt
changed =
    set (set (cli_opts build) 0 (with_value (codes "3") (row_of 0))) 8
      (with_value (codes "7") (row_of 8))

command_line :
    read_cli_opts false (codes "-i" ∷ codes "3" ∷ codes "--limit-runs=7" ∷ []) table.rows
    ≡ returns (pos 0, changed)
unfolding table read_cli_opts read_arg long_arg long_with_eq get_long_opt get_short_opt short_arg
    read_rows read_opt matches starts_with strchr cli_opts
command_line = refl

parse_options_lem_example :
    (o2 : Options) × (parse_options table (codes "-i" ∷ codes "3" ∷ codes "--limit-runs=7" ∷ [])
      ≡ returns (pos 0, o2))
    × IsTable build o2
    × ((n : ℤ) × ReadsInt o2 (codes "interval") n × (ltb_ℤ n (pos 15) ≡ false))
    × ((l k : ℤ) × ReadsInt o2 (codes "limit-runs") l
        × ReadsInt o2 (codes "keepalive") k
        × ((eq_ℤ l (pos 0) ≡ true) ⊎ (eq_ℤ k (pos 0) ≡ true)))
parse_options_lem_example =
    parse_options_lem build table (codes "-i" ∷ codes "3" ∷ codes "--limit-runs=7" ∷ []) (pos 0)
      changed table-IsTable command_line

log_method_slot : get_elem? (cli_opts build) 5 ≡ some (row_of 5)
unfolding cli_opts
log_method_slot = refl

log_method_read :
    read_opt (row_of 5) (some (codes "file")) ≡ returns (true, with_value (codes "file") (row_of 5))
unfolding read_opt cli_opts
log_method_read = refl

read_config-Keeps_example :
    Always
      (λ (p : ℤ × Options × Bool).
        Keeps changed p.1.rows
        × (false ≡ true → p.1.rows ≡ changed)
        × (p.2 ≡ (false || opened (some (codes "interval 60" ∷ [])))))
      (read_config false (record table { rows = changed }) (some (codes "interval 60" ∷ [])))
read_config-Keeps_example =
    read_config-Keeps false (record table { rows = changed }) (some (codes "interval 60" ∷ []))

log_method-NoSpace : NoSpace (codes "log-method")
unfolding isspace
log_method-NoSpace =
    (refl, (refl, (refl, (refl, (refl, (refl, (refl, (refl, (refl, (refl, tt))))))))))
