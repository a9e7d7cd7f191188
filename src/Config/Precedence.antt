-- ===== src/Config/Precedence.antt =====
-- src/lib/config_parse.c: a configuration file changes only options that have no value yet.
use freenote_probe.Base.{
  ℕ, Bool, true, false, not, ◌&&◌, ◌||◌, Option, none, some, List, [], ◌∷◌, ◌==◌, if◌then◌else◌,
  ◌≡◌, inl, inr, refl, sym, ap, ◌∙◌, arith, Bool-cases, Option-cases, get_elem?, set,
  get_elem?-set_ne,
}
use freenote_probe.Base.Int.{ℤ, pos, negsuc}
use freenote_probe.CString.{Bytes, strchr}
use freenote_probe.Options.{
  Options, Ran, returns, aborts, exits, faults, waits, ◌>>=◌, Always, Always->>=, Always-weaken,
  matches, search_from, opt_is_valid_i, opt_is_valid, is_default_opt, set_opt,
}
use freenote_probe.Options.Rows.{CliOpt}
use freenote_probe.Config.{
  assign, with_word, parse_line, parse_config, read_config, skip_spaces, tail, split_word, before,
  uncommented, after_line,
}
use freenote_probe.Config.Found.{search_from-Passes, search_again}

abbrev pub value? : Option CliOpt → Option Bytes
value? none = none
value? (some r) = r.value

abbrev pub opened : Option (List Bytes) → Bool
opened none = false
opened (some lines) = true

-- The value that row `k` was given, on the command line or in a file.
abbrev pub given : List CliOpt → ℕ → Option Bytes
given rows k = value? (get_elem? rows k)

-- Every value that is given stays.
abbrev pub Keeps : List CliOpt → List CliOpt → Type 0
Keeps rows rows2 = (k : ℕ) (v : Bytes) → given rows k ≡ some v → given rows2 k ≡ some v

-- After the first reading, nothing changes; before, one row without a value may get one.
abbrev Respects : Bool → Options → ℤ × Options → Type 0
Respects parsed o p = Keeps o.rows p.1.rows × (parsed ≡ true → p.1.rows ≡ o.rows)

set-Keeps :
    (rows : List CliOpt) (n : ℕ) (r s : CliOpt)
    → get_elem? rows n ≡ some r
    → r.value ≡ none
    → Keeps rows (set rows n s)
set-Keeps rows n r s slot empty k v e = elim (Bool-cases (n == k)) [
  | inl t ↦ absurd (
      let same : n ≡ k = ground (arith, t) in
      let z : none ≡ some v =
        sym empty ∙ ap value? (sym slot) ∙ ap (λ j. value? (get_elem? rows j)) same ∙ e in
      cc)
  | inr t ↦ ap value? (get_elem?-set_ne rows s (λ q. ground (arith, t, q))) ∙ e
]

-- An option without a value gets one if no file was read before.
fresh-Respects :
    (parsed : Bool) (o : Options) (opt val : Bytes) (n : ℕ) (r : CliOpt)
    → get_elem? o.rows n ≡ some r
    → matches opt r ≡ true
    → r.value ≡ none
    → Always (Respects parsed o) (
        if true && not parsed
        then (set_opt (record o { valid_cursor = n }) opt val >>= λ o2. returns (pos 0, o2))
        else returns (pos 0, record o { valid_cursor = n }))
fresh-Respects true o opt val n r slot t empty = (λ k v e. e, λ e. refl)
fresh-Respects false o opt val n r slot t empty =
    rw stored (set-Keeps o.rows n r _ slot empty, λ e. cc)
  where
    stored :
        set_opt (record o { valid_cursor = n }) opt val
        ≡ returns
            (record o { rows = set o.rows n (record r { value = some val }); valid_cursor = n })
    stored =
        unfold set_opt opt_is_valid_i in
        rw (search_again (matches opt) o.rows n (r, slot, t), slot) refl

assign-Respects :
    (parsed : Bool) (o : Options) (opt val : Bytes)
    → Always (Respects parsed o) (assign parsed o opt val)
unfolding assign is_default_opt opt_is_valid_i
assign-Respects parsed o opt val =
    elim (Option-cases (search_from (matches opt) o.rows o.valid_cursor).0) [
      | inl e ↦ rw e tt
      | inr (n, e) ↦
          let (at, (r, slot, t)) = search_from-Passes (matches opt) o.rows o.valid_cursor e in
          elim (Option-cases r.value) [
            | inl empty ↦ rw (e, slot, empty, at) (fresh-Respects parsed o opt val n r slot t empty)
            | inr (v, full) ↦ rw (e, slot, full) (λ k w g. g, λ g. refl)
          ]
    ]

unchanged : (parsed : Bool) (o o2 : Options) (r : ℤ) → o2.rows ≡ o.rows → Respects parsed o (r, o2)
unchanged parsed o o2 r same = (λ k v e. ap (λ rows. given rows k) same ∙ e, λ e. same)

with_word-Respects :
    (parsed : Bool) (o : Options) (w : Option (Bytes × Bytes))
    → Always (Respects parsed o) (with_word parsed o w)
with_word-Respects parsed o none = unchanged parsed o o (negsuc 0) refl
with_word-Respects parsed o (some (opt, rest)) = elim (Option-cases (skip_spaces (tail rest))) [
  | inl e ↦ rw (with_word, e) (unchanged parsed o o (negsuc 0) refl)
  | inr (val, e) ↦ rw (with_word, e) (assign-Respects parsed o opt val)
]

any_word : (m : Ran (Option (Bytes × Bytes))) → Always {0, 0} (λ w. Unit) m
any_word (returns w) = tt
any_word aborts = tt
any_word exits = tt
any_word faults = tt
any_word waits = tt

parse_line-Respects :
    (parsed : Bool) (o : Options) (line : Bytes)
    → Always (Respects parsed o) (parse_line parsed o line)
unfolding parse_line
parse_line-Respects parsed o line =
    let word = split_word (before line (strchr line 10)) in
    Always->>= {0, 0, 0, 0} (λ w. Unit) (Respects parsed o) word _ (any_word word)
      (λ w u. with_word-Respects parsed o w)

Respects-trans :
    (parsed : Bool) (o o2 : Options) (p : ℤ × Options)
    → Keeps o.rows o2.rows × (parsed ≡ true → o2.rows ≡ o.rows)
    → Respects parsed o2 p
    → Respects parsed o p
Respects-trans parsed o o2 p (keeps, still) (keeps2, still2) =
    (λ k v e. keeps2 k v (keeps k v e), λ e. still2 e ∙ still e)

after_line-Respects :
    (parsed : Bool) (o : Options) (rest : Options → Ran (ℤ × Options))
    → ((o2 : Options) → Always (Respects parsed o2) (rest o2))
    → (p : ℤ × Options) → Respects parsed o p
    → Always (Respects parsed o) (after_line rest p)
after_line-Respects parsed o rest more (pos n, o2) h =
    Always-weaken (Respects parsed o2) (Respects parsed o) (rest o2) (more o2)
      (λ p. Respects-trans parsed o o2 p h)
after_line-Respects parsed o rest more (negsuc n, o2) h = h

line-Respects :
    (parsed valid : Bool) (o o1 : Options) (line : Bytes)
    → o1.rows ≡ o.rows
    → Always
        (Respects parsed o)
        (if valid then parse_line parsed o1 line else returns (negsuc 0, o1))
line-Respects parsed true o o1 line same =
    Always-weaken (Respects parsed o1) (Respects parsed o) (parse_line parsed o1 line)
      (parse_line-Respects parsed o1 line)
      (λ p. Respects-trans parsed o o1 p (unchanged parsed o o1 (pos 0) same))
line-Respects parsed false o o1 line same = unchanged parsed o o1 (negsuc 0) same

parse_config-Respects :
    (parsed : Bool) (o : Options) (lines : List Bytes)
    → Always (Respects parsed o) (parse_config parsed o lines)
unfolding parse_config
parse_config-Respects parsed o [] = unchanged parsed o o (pos 0) refl
parse_config-Respects parsed o (line ∷ lines) =
    let checked = opt_is_valid o (uncommented line) in
    Always->>= (Respects parsed o) (Respects parsed o) _ _
      (line-Respects parsed checked.0 o checked.1 (uncommented line)
        (unfold opt_is_valid opt_is_valid_i in refl))
      (after_line-Respects parsed o _ (λ o2. parse_config-Respects parsed o2 lines))

-- Wherever `read_config` returns: it has changed no value that an option was given, on the command
-- line or by an earlier line; if a file was read before, it has changed no option at all; and a file
-- counts as read afterwards exactly if one was read before or this one could be opened, also where
-- one of its lines is wrong.
pub read_config-Keeps :
    (parsed_yet : Bool) (o : Options) (stream : Option (List Bytes))
    → Always
        (λ (p : ℤ × Options × Bool).
          Keeps o.rows p.1.rows
          × (parsed_yet ≡ true → p.1.rows ≡ o.rows)
          × (p.2 ≡ (parsed_yet || opened stream)))
        (read_config parsed_yet o stream)
unfolding read_config
read_config-Keeps parsed o none = (λ k v e. e, (λ e. refl), ground arith)
read_config-Keeps parsed o (some lines) =
    Always->>= (Respects parsed o) _ (parse_config parsed o lines) _
      (parse_config-Respects parsed o lines) (λ p h. (h.0, h.1, ground arith))
