-- ===== src/FileMan.antt =====
-- src/lib/fileman.c: the files of the probe. A file name is taken below the base directory, which
-- `read_file_opt_dup` gives; the file system is a value.
pub mod TeamInfo
pub mod Kept
use freenote_probe.Base.{
  ℕ, ◌+◌, ◌-◌, Bool, true, false, not, Option, none, some, List, [], ◌∷◌, ◌++◌, ◌==◌, ltb,
  if◌then◌else◌, length, take, drop, set,
}
use freenote_probe.Base.Int.{ℤ, pos, negsuc}
use freenote_probe.CString.{Bytes, codes, streq, strstr, strchr, advance, c_string}
use freenote_probe.CString.Decimal.{decimal}
use freenote_probe.Ran.{Ran, returns, faults, ◌>>=◌}

-- The content of each file, and which files can be opened for reading or writing, and removed. What
-- is read from or written to an open file goes through.
pub record Files : Type 0 where
  pub content : Bytes → Option Bytes
  pub can_read : Bytes → Bool
  pub can_write : Bytes → Bool
  pub can_unlink : Bytes → Bool

abbrev pub put : Files → Bytes → Option Bytes → Files
put files path text = record files { content = λ p. if streq p path then text else files.content p }

-- stat(path, &s) == 0
abbrev pub is_there : Option Bytes → Bool
is_there none = false
is_there (some text) = true

abbrev pub size_of : Option Bytes → ℕ
size_of none = 0
size_of (some text) = length text

-- The size of the two arrays in src/lib/dispatch.c.
abbrev pub team_info_size : ℕ
team_info_size = 1024

module _ (base_dir : Bytes) where
  unfoldable pub fm_abs : Bytes → Bytes
  fm_abs filename = base_dir ++ b'/' ∷ filename

  unfoldable pub fm_size : Files → Bytes → ℕ
  fm_size files filename = size_of (files.content (fm_abs filename))

  -- The file is opened without a test.
  unfoldable pub fm_read : Files → Bytes → Ran (Option Bytes)
  fm_read files filename =
      if fm_size files filename == 0
      then returns none
      else if files.can_read (fm_abs filename)
      then returns (files.content (fm_abs filename))
      else faults

  -- It returns what fwrite does for one element of the size of the text.
  unfoldable pub fm_write : Files → Bytes → Bytes → ℤ × Files
  fm_write files filename buf =
      if files.can_write (fm_abs filename)
      then (if length buf == 0 then pos 0 else pos 1, put files (fm_abs filename) (some buf))
      else (pos 0, files)

  unfoldable pub fm_exists : Files → Bytes → ℤ
  fm_exists files file = if is_there (files.content (fm_abs file)) then pos 1 else pos 0

  unfoldable pub fm_rm : Files → Bytes → ℤ × Files
  fm_rm files fname =
      let path = fm_abs fname in
      if is_there (files.content path)
      then if files.can_unlink path then (pos 0, put files path none) else (negsuc 0, files)
      else (negsuc 0, files)

  -- `is_dir` is what stat says of the directory, and `made` whether mkdir succeeds.
  unfoldable pub fm_init_base : (Bytes → Bool) → Bool → ℤ
  fm_init_base is_dir made = if is_dir base_dir then pos 0 else if made then pos 0 else negsuc 0

-- `pid_file` is what `read_file_opt_dup` gives; -1 is `PEXIT_FAILURE`.
unfoldable pub fm_create_pidfile : Option Bytes → ℕ → Files → ℤ × Files
fm_create_pidfile none pid files = (negsuc 0, files)
fm_create_pidfile (some pid_file) pid files =
    if files.can_write pid_file
    then (pos 0, put files pid_file (some (decimal (pos pid) ++ 10 ∷ [])))
    else (negsuc 0, files)

unfoldable pub fm_remove_pidfile : Option Bytes → Files → Files
fm_remove_pidfile none files = files
fm_remove_pidfile (some pid_file) files =
    if files.can_unlink pid_file then put files pid_file none else files

-- memcpy of the text, and a terminator one byte behind its end: `none` is a write outside the array.
unfoldable pub store_info : Bytes → Bytes → Option Bytes
store_info array text =
    if ltb (length text + 1) (length array)
    then some (set (text ++ drop (length text) array) (length text + 1) 0)
    else none

-- The text between a name and the next semicolon.
abbrev pub up_to_semicolon : Bytes → Option Bytes → Option Bytes
up_to_semicolon tmp none = none
up_to_semicolon tmp (some end) = some (take (length tmp - length end) tmp)

abbrev pub behind_name : ℕ → Option Bytes → Option Bytes
behind_name width none = none
behind_name width (some at) = let tmp = drop width at in up_to_semicolon tmp (strchr tmp b';')

unfoldable pub info_field : Bytes → Bytes → Option Bytes
info_field text name = behind_name (length name) (strstr text name)

-- The arrays, and what the function returns.
abbrev pub TeamInfo : Type 0
TeamInfo = ℤ × Bytes × Bytes

abbrev pub store_field : (Bytes → Ran TeamInfo) → TeamInfo → Bytes → Option Bytes → Ran TeamInfo
store_field go failed array none = returns failed
store_field go failed array (some text) = elim (store_info array text) [
  | none ↦ faults
  | some filled ↦ go filled
]

-- `text` is the file's content, if it could be read.
abbrev pub team_info_of : Bytes → Bytes → Option Bytes → Ran TeamInfo
team_info_of team_name pin_code none = returns (negsuc 0, team_name, pin_code)
team_info_of team_name pin_code (some text) =
    store_field
      (λ team.
        store_field (λ pin. returns (pos 0, team, pin)) (negsuc 0, team, pin_code) pin_code
          (info_field (c_string text) (codes "pin_code:")))
      (negsuc 0, team_name, pin_code) team_name (info_field (c_string text) (codes "team_name:"))

unfoldable pub fm_team_info : Bytes → Files → Bytes → Bytes → Ran TeamInfo
fm_team_info base_dir files team_name pin_code =
    fm_read base_dir files (codes "probe.team") >>= λ text. team_info_of team_name pin_code text
