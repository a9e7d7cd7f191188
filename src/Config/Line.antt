-- ===== src/Config/Line.antt =====
-- src/lib/config_parse.c: a line "name value" gives the option its value.
use freenote_probe.Base.{
  ℕ, ◌<◌, true, false, none, some, [], ◌∷◌, ◌++◌, ◌≡◌, refl, sym, ap, ◌∙◌, arith, All, get_elem?_lt,
}
use freenote_probe.Base.Int.{pos}
use freenote_probe.CString.{Bytes, strchr, isspace}
use freenote_probe.CString.Search.{Lacks, strchr-append, take-sub_length}
use freenote_probe.Options.{Options, returns, ◌>>=◌, matches, is_default_opt, set_opt, load_default}
use freenote_probe.Options.Rows.{Build, cli_opts}
use freenote_probe.Options.Search.{hits_from}
use freenote_probe.Options.Values.{IsTable, setting, set_at, opt_is_valid_at, rows_size}
use freenote_probe.Config.{assign, with_word, with_val, parse_line, split_word, skip_spaces, before}
use freenote_probe.Config.Precedence.{given, value?}

abbrev pub NoSpace : Bytes → Type 0
NoSpace = All (λ c. isspace c ≡ false)

split_word-append :
    (c : ℕ) (w rest : Bytes)
    → NoSpace (c ∷ w)
    → split_word ((c ∷ w) ++ b' ' ∷ rest) ≡ returns (some (c ∷ w, b' ' ∷ rest))
unfolding split_word
split_word-append c [] [] (hc, h) = rw hc (unfold isspace in refl)
split_word-append c [] (d ∷ rest) (hc, h) = rw hc (unfold isspace in refl)
split_word-append c (d ∷ w) rest (hc, h) = rw (hc, split_word-append d w rest h) refl

skip_spaces_none : (c : ℕ) (s : Bytes) → isspace c ≡ false → skip_spaces (c ∷ s) ≡ some (c ∷ s)
unfolding skip_spaces
skip_spaces_none c [] h = rw h
skip_spaces_none c (d ∷ s) h = rw h

is_default_at :
    (build : Build) (o : Options) (opt : Bytes) (k : ℕ)
    → IsTable build o
    → hits_from (matches opt) 0 (cli_opts build) ≡ k ∷ []
    → k < 20
    → given o.rows k ≡ none
    → is_default_opt o opt ≡ returns (true, record o { valid_cursor = k })
unfolding is_default_opt
is_default_at build o opt k h only small fresh =
    let (r, slot) = get_elem?_lt o.rows k (omega (arith, rows_size build o h)) in
    let empty : r.value ≡ none = sym (ap value? slot) ∙ fresh in
    ap (load_default o.rows) (opt_is_valid_at build o opt k h only) ∙ rw (slot, empty) refl

-- A line that names an option of the table, with one space and a value behind it, is read without
-- an error, and sets an option that was given no value and was not read from a file before.
-- The value begins with no space and the line has no line break before its end.
pub parse_line_sets :
    (build : Build) (o : Options) (n c : ℕ) (name value rest : Bytes) (k : ℕ)
    → IsTable build o
    → hits_from (matches (n ∷ name)) 0 (cli_opts build) ≡ k ∷ []
    → k < 20
    → NoSpace (n ∷ name)
    → isspace c ≡ false
    → Lacks 10 ((n ∷ name) ++ b' ' ∷ c ∷ value)
    → given o.rows k ≡ none
    → (o2 : Options) × (parse_line false o (((n ∷ name) ++ b' ' ∷ c ∷ value) ++ 10 ∷ rest)
        ≡ returns (pos 0, o2))
      × IsTable build o2
      × (setting o2 k ≡ some (c ∷ value))
unfolding parse_line
parse_line_sets build o n c name value rest k h only small word first line fresh =
    let (o2, done, table, value_is, others) =
      set_at build (record o { valid_cursor = k }) opt val k moved_table only small in
    (
      o2,
      ap (λ m. m >>= with_word false o) parts ∙ skip_spaces_only ∙ assigned o2 done,
      table,
      value_is,
    )
  where
    opt : Bytes
    opt = n ∷ name

    val : Bytes
    val = c ∷ value

    moved_table : IsTable build (record o { valid_cursor = k })
    moved_table = record { keys = h.keys; int_bound = h.int_bound; valid_bound = omega arith }

    cut :
        before ((opt ++ b' ' ∷ val) ++ 10 ∷ rest) (strchr ((opt ++ b' ' ∷ val) ++ 10 ∷ rest) 10)
        ≡ opt ++ b' ' ∷ val
    cut =
        ap (before ((opt ++ b' ' ∷ val) ++ 10 ∷ rest))
          (strchr-append (opt ++ b' ' ∷ val) rest 10 line)
        ∙ take-sub_length (opt ++ b' ' ∷ val) (10 ∷ rest)

    parts :
        split_word
          (before ((opt ++ b' ' ∷ val) ++ 10 ∷ rest) (strchr ((opt ++ b' ' ∷ val) ++ 10 ∷ rest) 10))
        ≡ returns (some (opt, b' ' ∷ val))
    parts = ap split_word cut ∙ split_word-append n name val word

    skip_spaces_only : with_word false o (some (opt, b' ' ∷ val)) ≡ assign false o opt val
    skip_spaces_only = ap (with_val false o opt) (skip_spaces_none c value first)

    assigned :
        (o2 : Options)
        → set_opt (record o { valid_cursor = k }) opt val ≡ returns o2
        → assign false o opt val ≡ returns (pos 0, o2)
    assigned o2 done =
        unfold assign in rw (is_default_at build o opt k h only small fresh, done) refl
