-- ===== src/Proto.antt =====
-- src/lib/proto.c: what an error message of a server means (`proto_errno`), and what the probe does
-- about it (`proto_error`).
pub mod Errors
use freenote_probe.Base.{◌||◌, Bool, true, false, Option, none, some, ◌>>=◌, if◌then◌else◌}
use freenote_probe.Base.Int.{ℤ, pos, negsuc}
use freenote_probe.CString.{Bytes, codes, streq}
use freenote_probe.NvPair.{NvList, nv_hash}

pub data ProtoErr : Type 0 where
  pe_unrecognized pe_pin_denied : ProtoErr
  pe_probeid_toosoon pe_probeid_missing pe_probeid_inactive pe_probeid_notfound : ProtoErr
  pe_workid_missing pe_workid_empty pe_workid_incomplete : ProtoErr
  pe_workid_notfound pe_workid_complete pe_workid_dberror : ProtoErr
  pe_teamname_notfound pe_teamname_inactive : ProtoErr

-- The codes of the variable `probe_id`.
unfoldable pub probe_id_errno : Bytes → ProtoErr
probe_id_errno code =
    if streq code (codes "NOTFOUND")
    then pe_probeid_notfound
    else if streq code (codes "TOOSOON")
    then pe_probeid_toosoon
    else if streq code (codes "MISSING")
    then pe_probeid_missing
    else if streq code (codes "INACTIVE")
    then pe_probeid_inactive
    else pe_unrecognized

-- The codes of the variable `work_id`.
unfoldable pub work_id_errno : Bytes → ProtoErr
work_id_errno code =
    if streq code (codes "MISSING")
    then pe_workid_missing
    else if streq code (codes "EMPTY")
    then pe_workid_empty
    else if streq code (codes "INCOMPLETE")
    then pe_workid_incomplete
    else if streq code (codes "NOTFOUND")
    then pe_workid_notfound
    else if streq code (codes "COMPLETE")
    then pe_workid_complete
    else if streq code (codes "DBERROR")
    then pe_workid_dberror
    else pe_unrecognized

-- The codes of the variable `team_name`.
unfoldable pub team_name_errno : Bytes → ProtoErr
team_name_errno code =
    if streq code (codes "NOTFOUND")
    then pe_teamname_notfound
    else if streq code (codes "INACTIVE")
    then pe_teamname_inactive
    else pe_unrecognized

-- The error for a variable and a code.
unfoldable pub errno_of : Bytes → Bytes → ProtoErr
unfolding probe_id_errno work_id_errno team_name_errno
errno_of var code =
    if streq var (codes "pin_code")
    then (if streq code (codes "DENIED") then pe_pin_denied else pe_unrecognized)
    else if streq var (codes "probe_id")
    then probe_id_errno code
    else if streq var (codes "work_id")
    then work_id_errno code
    else if streq var (codes "team_name")
    then team_name_errno code
    else pe_unrecognized

-- A variable that has codes.
unfoldable pub has_codes : Bytes → Bool
has_codes var =
    streq var (codes "pin_code")
    || streq var (codes "probe_id")
    || streq var (codes "work_id")
    || streq var (codes "team_name")

-- Only the code of such a variable is compared: without a code `strcmp` gets a null pointer, `none`.
abbrev pub errno_with : Bytes → Option Bytes → Option ProtoErr
errno_with var none = if has_codes var then none else some pe_unrecognized
errno_with var (some code) = some (errno_of var code)

-- `nvl` is the list that `proto_get_nvl` made of the message, or `none` if it made none. A list with
-- no variable leads `strcmp` to a null pointer, `none`.
unfoldable pub proto_errno : Option NvList → Option ProtoErr
proto_errno none = some pe_unrecognized
proto_errno (some nvl) =
    nv_hash nvl (codes "error_var.1") >>= λ var. errno_with var (nv_hash nvl (codes "error_code.1"))

-- What `proto_error` does: it returns a number, at once or after it slept; it removes the probe's id
-- and checks in again; it ends the probe; or it reaches its end with no `return`.
pub data Reaction : Type 0 where
  returns : ℤ → Reaction
  sleeps : ℤ → Reaction
  checks_in exits no_result : Reaction

unfoldable pub react : ProtoErr → Reaction
react pe_probeid_toosoon = sleeps (pos 0)
react pe_probeid_notfound = checks_in
react pe_pin_denied = exits
react pe_probeid_inactive = exits
react pe_teamname_notfound = exits
react pe_teamname_inactive = exits
react pe_probeid_missing = no_result
react pe_workid_missing = no_result
react pe_workid_empty = no_result
react pe_workid_dberror = no_result
react pe_workid_incomplete = returns (pos 0)
react pe_workid_complete = returns (pos 0)
react pe_workid_notfound = returns (pos 0)
react pe_unrecognized = returns (negsuc 0)

unfoldable pub proto_error : Option NvList → Option Reaction
unfolding proto_errno react
proto_error nvl = proto_errno nvl >>= λ e. some (react e)
