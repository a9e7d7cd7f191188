-- ===== src/Config.antt =====
-- src/lib/config_parse.c: the configuration file. A file is `none` if it cannot be opened, and else
-- the lines that fgets returns.
pub mod Found
pub mod Precedence
pub mod Line
use freenote_probe.Base.{
  Bool, true, false, not, ◌&&◌, Option, none, some, List, [], ◌∷◌, ◌-◌, if◌then◌else◌, length, take,
}
use freenote_probe.Base.Int.{ℤ, pos, negsuc}
use freenote_probe.CString.{Bytes, strchr, isspace}
use freenote_probe.Options.{
  Options, Ran, returns, faults, ◌>>=◌, opt_is_valid, is_default_opt, set_opt,
}

-- The text before the first `c`: `*strchr(line, c) = '\0'`, where there is one.
abbrev pub before : Bytes → Option Bytes → Bytes
before line none = line
before line (some at) = take (length line - length at) line

-- Moving `val` over the word: the word and what begins at the space behind it, or `none` for the
-- error of a missing value. An empty line is read behind its end.
unfoldable pub split_word : Bytes → Ran (Option (Bytes × Bytes))
split_word [] = faults
split_word (c ∷ []) = if isspace c then returns (some ([], c ∷ [])) else returns none
split_word (c ∷ d ∷ s) =
    let rest = split_word (d ∷ s) in
    if isspace c
    then returns (some ([], c ∷ d ∷ s))
    else (rest >>= λ r. elim r [ none ↦ returns none | some p ↦ returns (some (c ∷ p.0, p.1)) ])

-- Moving `val` over the spaces: `none` if nothing follows one.
unfoldable pub skip_spaces : Bytes → Option Bytes
skip_spaces [] = some []
skip_spaces (c ∷ []) = if isspace c then none else some (c ∷ [])
skip_spaces (c ∷ d ∷ s) =
    let rest = skip_spaces (d ∷ s) in if isspace c then rest else some (c ∷ d ∷ s)

abbrev pub tail : Bytes → Bytes
tail [] = []
tail (c ∷ s) = s

-- An option that has a value keeps it, and so do all options after the first reading of a file.
unfoldable pub assign : Bool → Options → Bytes → Bytes → Ran (ℤ × Options)
assign parsed_yet o opt val = is_default_opt o opt >>= λ (default, next).
    (if default && not parsed_yet
      then (set_opt next opt val >>= λ o2. returns (pos 0, o2))
      else returns (pos 0, next))

abbrev pub with_val : Bool → Options → Bytes → Option Bytes → Ran (ℤ × Options)
with_val parsed_yet o opt none = returns (negsuc 0, o)
with_val parsed_yet o opt (some val) = assign parsed_yet o opt val

-- What follows the split of the line.
abbrev pub with_word : Bool → Options → Option (Bytes × Bytes) → Ran (ℤ × Options)
with_word parsed_yet o none = returns (negsuc 0, o)
with_word parsed_yet o (some (opt, rest)) = with_val parsed_yet o opt (skip_spaces (tail rest))

unfoldable pub parse_line : Bool → Options → Bytes → Ran (ℤ × Options)
parse_line parsed_yet o line =
    split_word (before line (strchr line 10)) >>= λ w. with_word parsed_yet o w

abbrev pub uncommented : Bytes → Bytes
uncommented line = before line (strchr line b'#')

-- The result of a line: 0, or an error that ends the loop.
abbrev pub after_line : (Options → Ran (ℤ × Options)) → ℤ × Options → Ran (ℤ × Options)
after_line rest (pos n, o) = rest o
after_line rest (negsuc n, o) = returns (negsuc 0, o)

unfoldable pub parse_config : Bool → Options → List Bytes → Ran (ℤ × Options)
parse_config parsed_yet o [] = returns (pos 0, o)
parse_config parsed_yet o (line ∷ lines) =
    let (valid, o1) = opt_is_valid o (uncommented line) in
    (if valid then parse_line parsed_yet o1 (uncommented line) else returns (negsuc 0, o1))
    >>= after_line (λ o2. parse_config parsed_yet o2 lines)

-- The result, the options, and `parsed_yet` afterwards.
unfoldable pub read_config : Bool → Options → Option (List Bytes) → Ran (ℤ × Options × Bool)
read_config parsed_yet o none = returns (pos 0, o, parsed_yet)
read_config parsed_yet o (some lines) =
    parse_config parsed_yet o lines >>= λ (r, o2). returns (r, o2, true)
