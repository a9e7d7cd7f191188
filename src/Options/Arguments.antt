-- ===== src/Options/Arguments.antt =====
-- src/options.c: what the command line does to the table.
use freenote_probe.Base.{
  subst, Bool, true, false, Option, none, some, List, [], ◌∷◌, ◌==◌, map, ◌≡◌, inl, inr, refl, ap,
  ◌∙◌, Bool-cases, length, drop,
}
use freenote_probe.Base.Int.{ℤ}
use freenote_probe.CString.{Bytes, codes, starts_with, strchr}
use freenote_probe.Options.{Ran, returns, ◌>>=◌, Always, Always->>=}
use freenote_probe.Options.Rows.{CliOpt}
use freenote_probe.Options.Values.{key}
use freenote_probe.Options.CommandLine.{
  read_opt, str_value, int_value, all_digits, read_rows, get_long_opt, get_short_opt, long_with_eq,
  long_at, long_arg, short_arg, read_arg, read_cli_opts, Arg, goes_on, refused, proceed, head?,
}

abbrev rows_of : Arg → List CliOpt
rows_of (goes_on taken rows) = rows
rows_of (refused rows) = rows

-- Values change, and nothing else.
abbrev Same : List CliOpt → List CliOpt → Type 0
Same rows rows2 = map key rows2 ≡ map key rows

int_value-key : (r : CliOpt) (next : Option Bytes) → key (int_value r next).1 ≡ key r
int_value-key r none = refl
int_value-key r (some s) = elim (Bool-cases (all_digits s)) [
  | inl t ↦ rw t refl
  | inr t ↦ rw t refl
]

str_value-key :
    (r : CliOpt) (next : Option Bytes)
    → Always (λ (p : Bool × CliOpt). key p.1 ≡ key r) (str_value r next)
str_value-key r none = tt
str_value-key r (some s) = refl

read_opt-key :
    (r : CliOpt) (next : Option Bytes)
    → Always (λ (p : Bool × CliOpt). key p.1 ≡ key r) (read_opt r next)
unfolding read_opt
read_opt-key r next = elim (Bool-cases (r.type == b's')) [
  | inl t ↦ rw t (str_value-key r next)
  | inr t ↦ elim (Bool-cases (r.type == b'i')) [
    | inl u ↦ rw (t, u) (int_value-key r next)
    | inr u ↦ rw (t, u) tt
  ]
]

read_rows-keys :
    (test : CliOpt → Bool) (next : Option Bytes) (rows : List CliOpt)
    → Always (λ (p : Bool × List CliOpt). Same rows p.1) (read_rows test next rows)
unfolding read_rows
read_rows-keys test next [] = refl
read_rows-keys test next (r ∷ rows) =
    let rest = read_rows-keys test next rows in
    elim (Bool-cases (test r)) [
      | inl t ↦ rw t (
          Always->>= (λ (p : Bool × CliOpt). key p.1 ≡ key r)
            (λ (p : Bool × List CliOpt). Same (r ∷ rows) p.1) (read_opt r next) _
            (read_opt-key r next)
            (λ (taken, r2) e. elim (Bool-cases taken) [
              | inl u ↦ rw u (ap (λ k. k ∷ map key rows) e)
              | inr u ↦ rw u (
                  Always->>= (λ (p : Bool × List CliOpt). Same rows p.1)
                    (λ (p : Bool × List CliOpt). Same (r ∷ rows) p.1) (read_rows test next rows) _
                    rest (λ p f. ap (λ k. k ∷ map key p.1) e ∙ ap (◌∷◌ (key r)) f))
            ]))
      | inr t ↦ rw t (
          Always->>= (λ (p : Bool × List CliOpt). Same rows p.1)
            (λ (p : Bool × List CliOpt). Same (r ∷ rows) p.1) (read_rows test next rows) _ rest
            (λ p f. ap (◌∷◌ (key r)) f))
    ]

abbrev Stays : List CliOpt → Arg → Type 0
Stays rows a = Same rows (rows_of a)

-- A result that is made of the rows that `m` leaves.
through :
    (rows : List CliOpt) (m : Ran (Bool × List CliOpt)) (f : Bool → Bool)
    → Always (λ (p : Bool × List CliOpt). Same rows p.1) m
    → Always (Stays rows) (m >>= λ p. returns (goes_on (f p.0) p.1))
through rows m f h =
    Always->>= (λ (p : Bool × List CliOpt). Same rows p.1) (Stays rows) m _ h (λ p e. e)

long_with_eq-keys :
    (arg eq : Bytes) (rows : List CliOpt) → Always (Stays rows) (long_with_eq arg eq rows)
unfolding long_with_eq get_long_opt
long_with_eq-keys arg eq rows = elim (Bool-cases (length eq == 1)) [
  | inl t ↦ rw t refl
  | inr t ↦ rw t (through rows _ (λ b. false) (read_rows-keys _ (some (drop 1 eq)) rows))
]

long_at-keys :
    (arg : Bytes) (next : Option Bytes) (rows : List CliOpt) (eq : Option Bytes)
    → Always (Stays rows) (long_at arg next rows eq)
unfolding get_long_opt
long_at-keys arg next rows none = through rows _ (λ b. b) (read_rows-keys _ next rows)
long_at-keys arg next rows (some eq) = long_with_eq-keys arg eq rows

long_arg-keys :
    (arg : Bytes) (next : Option Bytes) (rows : List CliOpt)
    → Always (Stays rows) (long_arg arg next rows)
unfolding long_arg
long_arg-keys arg next rows = long_at-keys arg next rows (strchr arg b'=')

short_arg-keys :
    (arg : Bytes) (next : Option Bytes) (rows : List CliOpt)
    → Always (Stays rows) (short_arg arg next rows)
unfolding short_arg get_short_opt
short_arg-keys [] next rows = tt
short_arg-keys (dash ∷ []) next rows = tt
short_arg-keys (dash ∷ c ∷ []) next rows = through rows _ (λ b. b) (read_rows-keys _ next rows)
short_arg-keys (dash ∷ c ∷ v ∷ more) next rows =
    through rows _ (λ b. false) (read_rows-keys _ (some (v ∷ more)) rows)

read_arg-keys :
    (arg : Bytes) (next : Option Bytes) (rows : List CliOpt)
    → Always (Stays rows) (read_arg arg next rows)
unfolding read_arg
read_arg-keys arg next rows = elim (Bool-cases (starts_with arg (codes "--"))) [
  | inl t ↦ rw t (long_arg-keys arg next rows)
  | inr t ↦ elim (Bool-cases (starts_with arg (codes "-"))) [
    | inl u ↦ rw (t, u) (short_arg-keys arg next rows)
    | inr u ↦ rw (t, u) refl
  ]
]

proceed-keys :
    (rows : List CliOpt) (rest : Bool → List CliOpt → Ran (ℤ × List CliOpt))
    → ((taken : Bool) (rs : List CliOpt)
        → Always (λ (p : ℤ × List CliOpt). map key p.1 ≡ map key rs) (rest taken rs))
    → (a : Arg) → Stays rows a
    → Always (λ (p : ℤ × List CliOpt). map key p.1 ≡ map key rows) (proceed rest a)
proceed-keys rows rest more (refused rs) h = h
proceed-keys rows rest more (goes_on taken rs) h =
    subst (λ ks. Always (λ (p : ℤ × List CliOpt). map key p.1 ≡ ks) (rest taken rs)) h
      (more taken rs)

-- The loop changes values only.
pub read_cli_opts-keys :
    (skip : Bool) (args : List Bytes) (rows : List CliOpt)
    → Always (λ (p : ℤ × List CliOpt). map key p.1 ≡ map key rows) (read_cli_opts skip args rows)
unfolding read_cli_opts
read_cli_opts-keys skip [] rows = refl
read_cli_opts-keys true (arg ∷ args) rows = read_cli_opts-keys false args rows
read_cli_opts-keys false (arg ∷ args) rows =
    Always->>= (Stays rows) (λ (p : ℤ × List CliOpt). map key p.1 ≡ map key rows)
      (read_arg arg (head? args) rows) _ (read_arg-keys arg (head? args) rows)
      (proceed-keys rows _ (λ taken rs. read_cli_opts-keys taken args rs))
