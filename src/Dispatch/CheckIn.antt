-- ===== src/Dispatch/CheckIn.antt =====
-- src/lib/dispatch.c: `dispatch_init`, and what `dispatch_checkin` does with the answer of the server;
-- `save_dispatch_key` of src/crypt/dsa/pdsa.c; `collection_init` of src/lib/collection.c. The exchange
-- of messages is an argument.
pub mod Restart
use freenote_probe.Base.{
  ℕ, ◌+◌, ◌*◌, ◌-◌, ◌%◌, Bool, true, false, not, ◌&&◌, ◌||◌, Option, none, some, List, [], ◌∷◌,
  ◌++◌, ◌==◌, ltb, leb, if◌then◌else◌, length, drop,
}
use freenote_probe.Base.Int.{ℤ, pos, negsuc, eq_ℤ, ltb_ℤ, ◌-ℤ◌}
use freenote_probe.CString.{
  Bytes, codes, atoi, isdigit, digits_value, hex_value, skip_space, c_string,
}
use freenote_probe.CString.Decimal.{decimal}
use freenote_probe.Ran.{Ran, returns, faults, ◌>>=◌}
use freenote_probe.NvPair.{NvList, nv_hash}
use freenote_probe.FileMan.{Files, TeamInfo, fm_read, fm_write, fm_team_info}
use freenote_probe.Http.Chunked.{hex_number}

-- The octal digits in front.
unfoldable pub octal_value : ℕ → Bytes → ℕ
octal_value n [] = n
octal_value n (c ∷ s) = if leb b'0' c && leb c b'7' then octal_value (n * 8 + (c - b'0')) s else n

-- "%i": a number in one of three bases, or no match.
abbrev pub unsigned_number : Bytes → Option ℕ
unsigned_number [] = none
unsigned_number (c ∷ []) = if isdigit c then some (c - b'0') else none
unsigned_number (c ∷ d ∷ s) =
    if not (isdigit c)
    then none
    else if not (c == b'0')
    then some (digits_value 0 (c ∷ d ∷ s))
    else if d == b'x' || d == b'X'
    then some (hex_number 0 s)
    else some (octal_value 0 (d ∷ s))

abbrev pub negative : Option ℕ → Option ℤ
negative none = none
negative (some n) = some (pos 0 -ℤ pos n)

abbrev pub positive : Option ℕ → Option ℤ
positive none = none
positive (some n) = some (pos n)

abbrev pub signed_number : Bytes → Option ℤ
signed_number [] = none
signed_number (c ∷ s) =
    if c == b'-'
    then negative (unsigned_number s)
    else positive (unsigned_number (if c == b'+' then s else c ∷ s))

-- sscanf(s, "%i", &n): the number stored, if there is one. C leaves a value outside `int` undefined; the
-- number that is written is kept.
unfoldable pub scan_int : Bytes → Option ℤ
scan_int s = signed_number (skip_space s)

-- `probe_info`, with its arrays; whether the key of the server is loaded; and the files.
pub record Session : Type 0 where
  pub probe_id : ℤ
  pub team_name : Bytes
  pub pin_code : Bytes
  pub has_key : Bool
  pub files : Files

-- strcpy into an array that is larger than the text.
abbrev pub strcpy : Bytes → Bytes → Bytes
strcpy array text = text ++ 0 ∷ drop (length text + 1) array

-- !fm_write(...) | load_keys(...)
abbrev pub key_result : Bool → ℤ → ℤ
key_result loaded written =
    if loaded then (if eq_ℤ written (pos 0) then pos 1 else pos 0) else negsuc 0

abbrev pub with_team : Session → TeamInfo → Session
with_team s (r, team_name, pin_code) =
    if eq_ℤ r (negsuc 0)
    then record s {
      team_name = strcpy team_name (codes "default");
      pin_code = strcpy pin_code (codes "1234");
    }
    else record s { team_name = team_name; pin_code = pin_code }

abbrev pub with_id : Session → Option ℤ → Session
with_id s none = s
with_id s (some n) = record s { probe_id = n }

-- "%u" of an `int`.
abbrev pub unsigned : ℤ → ℕ
unsigned (pos n) = n % 4294967296
unsigned (negsuc n) = 4294967295 - n % 4294967296

unfoldable pub on_line : ℤ → Bytes
on_line id = codes "Probeid:  " ++ (decimal (pos (unsigned id)) ++ codes "\nStatus:  on-line!\n")

-- The text is printed into `id_to_s`, an array of 38 bytes, and sent to whoever listens.
unfoldable pub announced : Session → Ran (ℤ × Session)
announced s = if ltb (length (on_line s.probe_id)) 38 then returns (pos 0, s) else faults

module _ (base_dir : Bytes) where
  -- The parameters of a key are always generated. `loads` is whether OpenSSL reads a key from the file that was written.
  unfoldable pub save_dispatch_key : Bool → Session → Bytes → ℤ × Session
  save_dispatch_key loads s key =
      if s.has_key
      then (pos 0, s)
      else let (written, files) = fm_write base_dir s.files (codes "dispatch.pub") key in
        (key_result loads written, record s { has_key = true; files = files })

  -- The id in the answer is noted and written to its file.
  abbrev pub note_id : ℤ → Session → Option Bytes → ℤ × Session
  note_id rv s none = (negsuc 0, s)
  note_id rv s (some tmp) =
      let (written, files) = fm_write base_dir s.files (codes "probe.id") tmp in
      (
        if ltb_ℤ (pos 0) written then rv else negsuc 0,
        record s { probe_id = atoi tmp; files = files },
      )

  abbrev pub note_key : Bool → ℤ × Session → Option Bytes → ℤ × Session
  note_key loads (rv, s) none = (negsuc 0, s)
  note_key loads (rv, s) (some key) =
      if eq_ℤ rv (negsuc 0) then (rv, s) else save_dispatch_key loads s key

  -- The end of `dispatch_checkin`, from the lookup of `probe_id` on.
  unfoldable pub registered : Bool → ℤ → Session → NvList → ℤ × Session
  registered loads rv s nvl =
      note_key loads (note_id rv s (nv_hash nvl (codes "probe_id")))
        (nv_hash nvl (codes "dispatch_key"))

  -- What the messages come to: the value of `rv` so far and the list of the answer, or nothing where
  -- building or sending failed.
  abbrev pub answered : Bool → Session → Option (ℤ × NvList) → ℤ × Session
  answered loads s none = (negsuc 0, s)
  answered loads s (some (rv, nvl)) = registered loads rv s nvl

  module _ (loads : Bool) (exchange : Session → Ran (Option (ℤ × NvList))) where
    unfoldable pub dispatch_checkin : Session → Ran (ℤ × Session)
    dispatch_checkin s = exchange s >>= λ answer. returns (answered loads s answer)

    -- The result of checking in is not looked at.
    abbrev pub from_id_file : Session → Option Bytes → Ran (ℤ × Session)
    from_id_file s none = dispatch_checkin s >>= λ (r, after). announced after
    from_id_file s (some tmp) = announced (with_id s (scan_int (c_string tmp)))

    unfoldable pub dispatch_init : Session → Ran (ℤ × Session)
    dispatch_init s =
        if not (eq_ℤ s.probe_id (pos 0))
        then returns (pos 0, s)
        else (fm_team_info base_dir s.files s.team_name s.pin_code >>= λ info.
            fm_read base_dir s.files (codes "probe.id") >>= λ tmp.
            from_id_file (with_team s info) tmp)

  -- The id of the collection client is -1 before it is read.
  abbrev pub report_id : ℤ → Option Bytes → ℤ × ℤ
  report_id probe_id none = (negsuc 0, probe_id)
  report_id probe_id (some tmp) =
      (pos 0, elim (scan_int (c_string tmp)) [ none ↦ probe_id | some n ↦ n ])

  unfoldable pub collection_init : Files → ℤ → Ran (ℤ × ℤ)
  collection_init files probe_id =
      if not (eq_ℤ probe_id (negsuc 0))
      then returns (pos 0, probe_id)
      else (fm_read base_dir files (codes "probe.id") >>= λ tmp. returns (report_id probe_id tmp))
