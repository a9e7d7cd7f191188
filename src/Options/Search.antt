-- ===== src/Options/Search.antt =====
-- src/options.c: where the static variable of a search stands does not matter, as long as one row
-- passes the test.
use freenote_probe.Base.{
  append-nil, next_none, next_some, ℕ, zero, suc, ◌+◌, ◌≤◌, Bool, false, none, some, List, [], ◌∷◌,
  ◌++◌, ◌==◌, if◌then◌else◌, map, length, take, drop, ◌≡◌, refl, sym, ap, ◌∙◌, arith, Bool-cases,
  Option-cases, inl, inr,
}
use freenote_probe.Options.{first, onward, wrapped, search_from}
use freenote_probe.Options.Rows.{CliOpt}

module _ (test : CliOpt → Bool) where
  -- The indices of all rows that pass, counted from `n`.
  abbrev pub hits_from : ℕ → List CliOpt → List ℕ
  hits_from n [] = []
  hits_from n (r ∷ rows) = let rest = hits_from (suc n) rows in if test r then n ∷ rest else rest

  first_hit :
      (n : ℕ) (rows : List CliOpt) {k : ℕ}
      → first test rows ≡ some k
      → (more : List ℕ) × (hits_from n rows ≡ (n + k) ∷ more)
  unfolding first
  first_hit n [] e = cc
  first_hit n (r ∷ rows) {k} e = elim (Bool-cases (test r)) [
    | inl t ↦ (
      hits_from (suc n) rows,
      rw t (
          ap (λ m. m ∷ hits_from (suc n) rows)
            (let z : 0 ≡ k = ground (arith, rw t at e) in omega (arith, z))),
    )
    | inr t ↦
        let (m, found, z) = next_some (first test rows) (rw t at e) in
        let (more, h) = first_hit (suc n) rows found in
        (more, rw t (h ∙ ap (λ j. j ∷ more) (omega (arith, z))))
  ]

  first-none : (n : ℕ) (rows : List CliOpt) → first test rows ≡ none → hits_from n rows ≡ []
  unfolding first
  first-none n [] e = refl
  first-none n (r ∷ rows) e = elim (Bool-cases (test r)) [
    | inl t ↦ absurd (let z : some 0 ≡ none = rw t at e in cc)
    | inr t ↦ rw t (first-none (suc n) rows (next_none (first test rows) (rw t at e)))
  ]

  hits_split :
      (n c : ℕ) (rows : List CliOpt)
      → c ≤ length rows
      → hits_from n rows ≡ hits_from n (take c rows) ++ hits_from (n + c) (drop c rows)
  hits_split n zero rows h = ap (λ m. hits_from m rows) (omega arith)
  hits_split n (suc c) [] h = absurd (omega arith)
  hits_split n (suc c) (r ∷ rows) h =
      let more : hits_from (suc n) rows
          ≡ hits_from (suc n) (take c rows) ++ hits_from (n + suc c) (drop c rows) =
        hits_split (suc n) c rows (omega arith)
        ∙ ap (λ m. hits_from (suc n) (take c rows) ++ hits_from m (drop c rows)) (omega arith) in
      elim (Bool-cases (test r)) [ inl t ↦ rw t (ap (◌∷◌ n) more) | inr t ↦ rw t more ]

  behind_all : (before more : List ℕ) (x k : ℕ) → before ++ x ∷ more ≡ k ∷ [] → x ≡ k
  behind_all [] more x k e = cc
  behind_all (b ∷ []) more x k e = absurd cc
  behind_all (b ∷ c ∷ before) more x k e = absurd cc

  wrapped_only :
      (rows : List CliOpt) (start k : ℕ)
      → hits_from 0 (take start rows) ≡ k ∷ []
      → onward start (length rows) (wrapped start (first test (take start rows))) none ≡ (some k, k)
  unfolding onward wrapped
  wrapped_only rows zero k h = absurd cc
  wrapped_only rows (suc s) k h = elim (Option-cases (first test (take (suc s) rows))) [
    | inl e ↦ absurd (let z = sym (first-none 0 (take (suc s) rows) e) ∙ h in cc)
    | inr (n, e) ↦
        let (more, found) = first_hit 0 (take (suc s) rows) e in
        let same : 0 + n ≡ k = behind_all [] more (0 + n) k (sym found ∙ h) in
        let never : (suc s == 0) ≡ false = ground arith in
        let z : n ≡ k = omega (arith, same) in rw (never, e) (ap (λ j. (some j, j)) z)
  ]

  -- If one row passes, a search finds it from every position of the variable, and leaves the
  -- variable there.
  pub search_from_only :
      (rows : List CliOpt) (start k : ℕ)
      → start ≤ length rows
      → hits_from 0 rows ≡ k ∷ []
      → search_from test rows start ≡ (some k, k)
  unfolding search_from
  search_from_only rows start k h only = elim (Option-cases (first test (drop start rows))) [
    | inr (n, e) ↦
        let (more, after) = first_hit start (drop start rows) e in
        let whole : hits_from 0 (take start rows) ++ (start + n) ∷ more ≡ k ∷ [] =
          ap (λ l. hits_from 0 (take start rows) ++ l) (sym after) ∙ split in
        rw e (ap (λ j. (some j, j)) (behind_all _ more (start + n) k whole))
    | inl e ↦
        let whole : hits_from 0 (take start rows) ≡ k ∷ [] =
          sym (append-nil _)
          ∙ ap (λ l. hits_from 0 (take start rows) ++ l)
              (sym (first-none start (drop start rows) e))
          ∙ split in
        rw e (wrapped_only rows start k whole)
  ]
    where
      split : hits_from 0 (take start rows) ++ hits_from start (drop start rows) ≡ k ∷ []
      split =
          ap (λ m. hits_from 0 (take start rows) ++ hits_from m (drop start rows)) (omega arith)
          ∙ sym (hits_split 0 start rows h)
          ∙ only

-- The hits depend only on what the test reads of the rows.
pub hits_same {ℓ} :
    {K : Type ℓ} (key : CliOpt → K) (test : CliOpt → Bool)
    → ((r s : CliOpt) → key r ≡ key s → test r ≡ test s)
    → (n : ℕ) (rows rows2 : List CliOpt) → map key rows ≡ map key rows2
    → hits_from test n rows ≡ hits_from test n rows2
hits_same key test fits n [] [] e = refl
hits_same key test fits n [] (s ∷ ss) e = absurd cc
hits_same key test fits n (r ∷ rs) [] e = absurd cc
hits_same key test fits n (r ∷ rs) (s ∷ ss) e =
    let one : key r ≡ key s = cc in
    let rest : map key rs ≡ map key ss = cc in
    let more = hits_same key test fits (suc n) rs ss rest in
    elim (Bool-cases (test s)) [
      | inl t ↦ rw (fits r s one, t) (ap (◌∷◌ n) more)
      | inr t ↦ rw (fits r s one, t) more
    ]
