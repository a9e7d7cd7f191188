-- ===== src/Options/Usage.antt =====
-- src/options.c: the help text, `print_option_usage` and `options_usage`.
use freenote_probe.Base.{
  Bool-cases, inl, inr, ℕ, ◌+◌, ◌-◌, ◌%◌, ◌≤◌, true, false, Option, none, some, List, [], ◌∷◌, ◌++◌,
  ◌==◌, if◌then◌else◌, ltb, length, replicate, ◌≡◌, refl, arith, length-append, length-replicate,
}
use freenote_probe.CString.{Bytes, codes}
use freenote_probe.Options.Rows.{CliOpt}

abbrev pub left_col : ℕ
left_col = 27

-- Subtraction of `unsigned` values.
abbrev minus_u32 : ℕ → ℕ → ℕ
minus_u32 a b = (a + (4294967296 - b)) % 4294967296

-- The blanks behind the name, as `unsigned pad`.
unfoldable pub pad : CliOpt → ℕ
pad r =
    let p = minus_u32 (minus_u32 left_col (length r.name)) 4 in
    if r.sname == 0 then p else minus_u32 p 4

unfoldable pub usage_name : CliOpt → Bytes
usage_name r =
    if r.sname == 0 then codes "  --" ++ r.name else codes "  -" ++ r.sname ∷ codes ", --" ++ r.name

-- A line break in the text is followed by the width of the left column.
unfoldable pub indented : Bytes → Bytes
indented [] = []
indented (c ∷ u) = if c == 10 then c ∷ replicate left_col b' ' ++ indented u else c ∷ indented u

-- One row of the help text; a column that the 80 blanks of `space` do not fill is a fault.
unfoldable pub print_option_usage : CliOpt → Bytes → Option Bytes
print_option_usage r usage =
    if ltb 80 (pad r)
    then none
    else some (usage_name r ++ replicate (pad r) b' ' ++ indented usage ++ codes "\n")

-- The rows up to the first one without a text.
unfoldable pub options_usage : List CliOpt → Option Bytes
unfolding print_option_usage
options_usage [] = some []
options_usage (r ∷ rows) =
    let rest = options_usage rows in
    elim r.usage [
      | none ↦ some []
      | some u ↦ elim (print_option_usage r u) [
        | none ↦ none
        | some line ↦ elim rest [ none ↦ none | some more ↦ some (line ++ more) ]
      ]
    ]

pad-long : (r : CliOpt) → length r.name ≤ 19 → (r.sname == 0) ≡ true → pad r ≡ 23 - length r.name
unfolding pad
pad-long r h t = rw t (omega arith)

pad-short : (r : CliOpt) → length r.name ≤ 19 → (r.sname == 0) ≡ false → pad r ≡ 19 - length r.name
unfolding pad
pad-short r h t = rw t (omega arith)

usage_name-length :
    (r : CliOpt) → length r.name ≤ 19 → (pad r ≤ 80) × (length (usage_name r) + pad r ≡ left_col)
unfolding usage_name
usage_name-length r h = elim (Bool-cases (r.sname == 0)) [
  | inl t ↦
      let p = pad-long r h t in
      let n : length (usage_name r) ≡ 4 + length r.name = rw t (omega arith) in
      (omega (arith, p), omega (arith, p, n))
  | inr t ↦
      let p = pad-short r h t in
      let n : length (usage_name r) ≡ 8 + length r.name = rw t (omega arith) in
      (omega (arith, p), omega (arith, p, n))
]

-- A row whose name has at most 19 characters is printed, and its text begins in column 27, with or
-- without a short name.
pub print_option_usage_column :
    (r : CliOpt) (usage : Bytes)
    → length r.name ≤ 19
    → (column : Bytes) × (print_option_usage r usage
        ≡ some (column ++ indented usage ++ codes "\n"))
      × (length column ≡ left_col)
unfolding print_option_usage
print_option_usage_column r usage h =
    let (small, sum) = usage_name-length r h in
    let fits : ltb 80 (pad r) ≡ false = ground (arith, small) in
    (
      usage_name r ++ replicate (pad r) b' ',
      rw fits refl,
      omega (
        arith,
        sum,
        length-append {0} (usage_name r) (replicate (pad r) b' '),
        length-replicate {A = ℕ} (pad r) b' ',
      ),
    )
