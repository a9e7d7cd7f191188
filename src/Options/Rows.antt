-- ===== src/Options/Rows.antt =====
-- src/options.c: the array `cli_opts`. The version of the package comes from the build, as does
-- whether DEBUG is defined.
use freenote_probe.Base.{ℕ, Bool, Option, none, some, List, [], ◌∷◌, ◌++◌, if◌then◌else◌}
use freenote_probe.CString.{Bytes, codes}

-- A row of the array; `none` is a null pointer.
pub record CliOpt : Type 0 where
  pub name : Bytes
  pub def_val : Option Bytes
  pub value : Option Bytes
  pub flags : ℕ
  pub type : ℕ
  pub sname : ℕ
  pub usage : Option Bytes

pub record Build : Type 0 where
  pub debug : Bool
  pub package_name : Bytes
  pub package_version : Bytes

abbrev o_user_w : ℕ
o_user_w = 1

abbrev o_serv_w : ℕ
o_serv_w = 2

-- O_USER_W | O_SERV_W
abbrev o_both_w : ℕ
o_both_w = 3

abbrev pub row : Bytes → Option Bytes → ℕ → ℕ → ℕ → Option Bytes → CliOpt
row name def_val flags type sname usage = record {
  name = name;
  def_val = def_val;
  value = none;
  flags = flags;
  type = type;
  sname = sname;
  usage = usage;
}

abbrev def_base : Bytes
def_base = codes "~/.freenote"

abbrev server_name : Bytes
server_name = codes "freenote.petta-tech.com"

-- The rows in the source's order. The terminating row, whose name is null, is the end of the list.
unfoldable pub cli_opts : Build → List CliOpt
cli_opts build =
    row (codes "interval") (some (codes "60")) o_both_w b'i' b'i'
      (some (codes "Sleep interval between jobs (Minimum 15)"))
    ∷ row (codes "base-dir") (some def_base) o_user_w b's' b'b'
        (some (codes "Directory containing the FreeNote config and\nID files"))
    ∷ row (codes "daemon") (some (if build.debug then codes "0" else codes "1")) o_user_w b'i' b'd'
        (some (codes "Daemonize and run in the background"))
    ∷ row (codes "config-file") (some (def_base ++ codes "/rc")) o_user_w b's' b'f'
        (some (codes "Configuration file for the FreeNote Probe"))
    ∷ row (codes "pid-file") (some (def_base ++ codes "/" ++ build.package_name ++ codes ".pid"))
        o_user_w b's' b'p' (some (codes "Location where the PID file is stored."))
    ∷ row (codes "log-method") (some (codes "syslog")) o_user_w b's' b'l'
        (some (codes "Logging method to use"))
    ∷ row (codes "su-user") (some (codes "nobody")) o_user_w b's' b'u'
        (some (codes "User (username or uid) to attempt to become if possible."))
    ∷ row (codes "verbosity") (some (if build.debug then codes "9" else codes "1")) o_user_w b'i'
        b'v'
        (some (
          codes "Messages to report or log.  0 for serious errors\nonly, 1 for "
          ++ codes "warnings, up to 3 for incredible verbosity."))
    ∷ row (codes "limit-runs") (some (codes "0")) o_user_w b'i' 0
        (some (codes "Exit after a certain number of iterations.\n(0 = unlimited)"))
    ∷ row (codes "version") (some (codes "0")) o_user_w b'i' b'V'
        (some (codes "Show the version number and exit"))
    ∷ row (codes "keepalive") (some (codes "1")) o_user_w b'i' b'k'
        (some (codes "Make sure the probe survives"))
    ∷ row (codes "no-tokens") (some (codes "0")) o_user_w b'i' b'n'
        (some (codes "Force no registration.  (You won't earn tokens.)"))
    ∷ row (codes "setup") (some (codes "0")) o_user_w b'i' 0
        (some (codes "Interactive team setup before starting the probe."))
    ∷ row (codes "auto-setup") (none) o_user_w b's' 0
        (some (codes "Non-interactive setup.  Specify 'team_name:pin_code'"))
    ∷ row (codes "help") (some (codes "0")) o_user_w b'i' b'h' (some (codes "Show help."))
    ∷ row (codes "network-timeout") (some (codes "120")) o_both_w b'i' 0 (none)
    ∷ row (codes "max-page-recursion") (some (codes "2")) o_serv_w b'i' 0 (none)
    ∷ row (codes "user-agent") (some (codes "FreeNoteProbe/" ++ build.package_version)) o_serv_w
        b's' 0 (none)
    ∷ row (codes "dispatch-server") (some server_name) o_serv_w b's' 0 (none)
    ∷ row (codes "collection-server") (some server_name) o_serv_w b's' 0 (none)
    ∷ []
