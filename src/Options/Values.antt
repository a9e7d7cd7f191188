-- ===== src/Options/Values.antt =====
-- src/options.c: reading and changing an option of the program's table.
use freenote_probe.Base.{
  ℕ, zero, suc, ◌≤◌, ◌<◌, ◌&&◌, Option, none, some, List, [], ◌∷◌, ◌==◌, map, length, length-map,
  get_elem?, set, ◌≡◌, ◌≢◌, refl, sym, ap, ◌∙◌, arith, lt_of_get_elem?, get_elem?_lt,
  get_elem?-set_self, get_elem?-set_ne, Option-cases, inl, inr,
}
use freenote_probe.CString.{Bytes, atoi, starts_with}
use freenote_probe.Options.{
  Options, Ran, returns, matches, int_matches, opt_is_valid_i, set_opt, read_int_opt, read_str_opt,
  current, found_row, load, load_int, value_or, in_array, int_of, moved, store_value, ◌>>=◌,
}
use freenote_probe.Options.Rows.{CliOpt, Build, cli_opts}
use freenote_probe.Options.Search.{hits_from, hits_same, search_from_only}

-- What no operation changes in a row.
pub record Key : Type 0 where
  pub name : Bytes
  pub def_val : Option Bytes
  pub type : ℕ

abbrev pub key : CliOpt → Key
key r = record { name = r.name; def_val = r.def_val; type = r.type }

-- The rows are those of `cli_opts` with other values, and the static variables stand in the table.
pub record IsTable (build : Build) (o : Options) : Type 0 where
  pub keys : map key o.rows ≡ map key (cli_opts build)
  pub int_bound : o.int_cursor ≤ 20
  pub valid_bound : o.valid_cursor ≤ 20

pub keys-set :
    (rows : List CliOpt) (k : ℕ) (r s : CliOpt)
    → get_elem? rows k ≡ some r
    → key s ≡ key r
    → map key (set rows k s) ≡ map key rows
keys-set [] k r s e same = refl
keys-set (q ∷ rows) zero r s e same =
    ap (λ x. x ∷ map key rows) (same ∙ (let z : q ≡ r = cc in ap key (sym z)))
keys-set (q ∷ rows) (suc k) r s e same = ap (◌∷◌ (key q)) (keys-set rows k r s e same)

key_at :
    (rows table : List CliOpt) (k : ℕ) {t : CliOpt}
    → map key rows ≡ map key table
    → get_elem? table k ≡ some t
    → (r : CliOpt) × (get_elem? rows k ≡ some r) × (key r ≡ key t)
key_at rows [] k e at = absurd cc
key_at [] (q ∷ table) k e at = absurd cc
key_at (r ∷ rows) (q ∷ table) zero {t} e at =
    (r, refl, (let z : q ≡ t = cc in let y : key r ≡ key q = cc in y ∙ ap key z))
key_at (r ∷ rows) (q ∷ table) (suc k) e at =
    let rest : map key rows ≡ map key table = cc in key_at rows table k rest at

matches-key : (opt : Bytes) (r s : CliOpt) → key r ≡ key s → matches opt r ≡ matches opt s
unfolding matches
matches-key opt r s e = ap (λ (k : Key). starts_with opt k.name) e

int_matches-key :
    (opt : Bytes) (r s : CliOpt) → key r ≡ key s → int_matches opt r ≡ int_matches opt s
unfolding int_matches matches
int_matches-key opt r s e = ap (λ (k : Key). k.type == b'i' && starts_with opt k.name) e

table_size : (build : Build) → length (cli_opts build) ≡ 20
unfolding cli_opts
table_size build = refl

pub rows_size : (build : Build) (o : Options) → IsTable build o → length o.rows ≡ 20
rows_size build o h =
    sym (length-map o.rows key)
    ∙ ap (length {A = Key}) h.keys
    ∙ length-map (cli_opts build) key
    ∙ table_size build

-- The value that an option of the table has.
abbrev pub current? : Option CliOpt → Option Bytes
current? none = none
current? (some r) = current r

abbrev pub setting : Options → ℕ → Option Bytes
setting o k = current? (get_elem? o.rows k)

has_value : (r : CliOpt) (d : Bytes) → r.def_val ≡ some d → (v : Bytes) × (current r ≡ some v)
has_value r d e = elim (Option-cases r.value) [
  | inl n ↦ (d, ap (value_or r.def_val) n ∙ e)
  | inr (v, s) ↦ (v, ap (value_or r.def_val) s)
]

found_row_at :
    (rows : List CliOpt) (k : ℕ) {r : CliOpt}
    → get_elem? rows k ≡ some r
    → found_row rows (some k) ≡ returns (k, r)
found_row_at rows k slot = ap (λ (m : Option CliOpt). in_array m >>= λ r. returns (k, r)) slot

load_int_at :
    (o : Options) (k : ℕ) (r : CliOpt) (v : Bytes)
    → get_elem? o.rows k ≡ some r
    → current r ≡ some v
    → load_int o (some k, k) ≡ returns (atoi v, record o { int_cursor = k })
load_int_at o k r v slot now =
    ap
      (λ (m : Ran (ℕ × CliOpt)).
        m >>= λ p. (int_of (current p.1) >>= λ i. returns (i, record o { int_cursor = k })))
      (found_row_at o.rows k slot)
    ∙ ap (λ (m : Option Bytes). int_of m >>= λ i. returns (i, record o { int_cursor = k })) now

-- The one integer option that has the name is read from every position of the static variable.
pub read_int_at :
    (build : Build) (o : Options) (opt : Bytes) (k : ℕ) {t : CliOpt} {d : Bytes}
    → IsTable build o
    → hits_from (int_matches opt) 0 (cli_opts build) ≡ k ∷ []
    → get_elem? (cli_opts build) k ≡ some t
    → t.def_val ≡ some d
    → (v : Bytes) × (setting o k ≡ some v)
      × (read_int_opt o opt ≡ returns (atoi v, record o { int_cursor = k }))
unfolding read_int_opt
read_int_at build o opt k {t} {d} h only at default =
    let (r, slot, same) = key_at o.rows (cli_opts build) k h.keys at in
    let found =
      search_from_only (int_matches opt) o.rows o.int_cursor k
        (omega (arith, rows_size build o h, h.int_bound))
        (hits_same key (int_matches opt) (int_matches-key opt) 0 o.rows (cli_opts build) h.keys
          ∙ only) in
    let (v, now) = has_value r d (ap (λ (q : Key). q.def_val) same ∙ default) in
    (v, ap current? slot ∙ now, ap (load_int o) found ∙ load_int_at o k r v slot now)

pub opt_is_valid_at :
    (build : Build) (o : Options) (opt : Bytes) (k : ℕ)
    → IsTable build o
    → hits_from (matches opt) 0 (cli_opts build) ≡ k ∷ []
    → opt_is_valid_i o opt ≡ (some k, record o { valid_cursor = k })
unfolding opt_is_valid_i
opt_is_valid_at build o opt k h only = ap (moved o) (
    search_from_only (matches opt) o.rows o.valid_cursor k
      (omega (arith, rows_size build o h, h.valid_bound))
      (hits_same key (matches opt) (matches-key opt) 0 o.rows (cli_opts build) h.keys ∙ only))

abbrev pub after_set : Options → ℕ → CliOpt → Bytes → Options
after_set o k r v = record o { rows = set o.rows k (record r { value = some v }); valid_cursor = k }

store_at :
    (o : Options) (k : ℕ) (v : Bytes) {r : CliOpt}
    → get_elem? o.rows k ≡ some r
    → store_value o.rows v (some k, record o { valid_cursor = k }) ≡ returns (after_set o k r v)
store_at o k v slot =
    ap
      (λ (m : Ran (ℕ × CliOpt)). m >>= λ p.
        returns
          (record o { rows = set o.rows p.0 (record p.1 { value = some v }); valid_cursor = k }))
      (found_row_at o.rows k slot)

-- After `set_opt` the option has the value, the other options keep theirs, and the table is as it
-- should be.
pub set_at :
    (build : Build) (o : Options) (opt v : Bytes) (k : ℕ)
    → IsTable build o
    → hits_from (matches opt) 0 (cli_opts build) ≡ k ∷ []
    → k < 20
    → (o2 : Options) × (set_opt o opt v ≡ returns o2)
      × IsTable build o2
      × (setting o2 k ≡ some v)
      × ((j : ℕ) → k ≢ j → setting o2 j ≡ setting o j)
unfolding set_opt
set_at build o opt v k h only small =
    let (r, slot) = get_elem?_lt o.rows k (omega (arith, rows_size build o h)) in
    (
      after_set o k r v,
      ap (store_value o.rows v) (opt_is_valid_at build o opt k h only) ∙ store_at o k v slot,
      record {
        keys = keys-set o.rows k r _ slot refl ∙ h.keys;
        int_bound = h.int_bound;
        valid_bound = omega arith;
      },
      ap current? (get_elem?-set_self o.rows k _ (lt_of_get_elem? o.rows k slot)),
      λ j ne. ap current? (get_elem?-set_ne o.rows _ ne),
    )

read_str_at :
    (build : Build) (o : Options) (opt : Bytes) (k : ℕ)
    → IsTable build o
    → hits_from (matches opt) 0 (cli_opts build) ≡ k ∷ []
    → k < 20
    → read_str_opt o opt ≡ returns (setting o k, record o { valid_cursor = k })
unfolding read_str_opt
read_str_at build o opt k h only small =
    let (r, slot) = get_elem?_lt o.rows k (omega (arith, rows_size build o h)) in
    ap (load o.rows) (opt_is_valid_at build o opt k h only)
    ∙ ap (λ (m : Ran (ℕ × CliOpt)). m >>= λ p. returns (current p.1, record o { valid_cursor = k }))
        (found_row_at o.rows k slot)
    ∙ ap (λ m. returns (m, record o { valid_cursor = k })) (sym (ap current? slot))

-- In the program's table, wherever the static variable stands: setting an option and then reading
-- it gives the value that was set, and every other option is read as before. An option is given by
-- a text that matches one row, `k`, of the table.
pub set_opt-read_str_opt :
    (build : Build) (o : Options) (opt v : Bytes) (k : ℕ)
    → IsTable build o
    → hits_from (matches opt) 0 (cli_opts build) ≡ k ∷ []
    → k < 20
    → (o2 : Options) × (set_opt o opt v ≡ returns o2)
      × IsTable build o2
      × (read_str_opt o2 opt ≡ returns (some v, record o2 { valid_cursor = k }))
      × ((other : Bytes) (j : ℕ)
          → hits_from (matches other) 0 (cli_opts build) ≡ j ∷ []
          → j < 20
          → k ≢ j
          → (w : Option Bytes) × (read_str_opt o other ≡ returns (w, record o { valid_cursor = j }))
            × (read_str_opt o2 other ≡ returns (w, record o2 { valid_cursor = j })))
set_opt-read_str_opt build o opt v k h only small =
    let (o2, done, table, value, others) = set_at build o opt v k h only small in
    (
      o2,
      done,
      table,
      read_str_at build o2 opt k table only small
          ∙ ap (λ m. returns (m, record o2 { valid_cursor = k })) value,
      λ other j one lt ne. (
        setting o j,
        read_str_at build o other j h one lt,
        read_str_at build o2 other j table one lt
            ∙ ap (λ m. returns (m, record o2 { valid_cursor = j })) (others j ne),
      ),
    )
