-- ===== src/Config/Found.antt =====
-- src/options.c: what a search finds, also when it is repeated, as src/lib/config_parse.c does.
use freenote_probe.Base.{
  ℕ, zero, suc, ◌+◌, Bool, true, Option, none, some, List, [], ◌∷◌, ◌==◌, ◌≡◌, inl, inr, refl, sym,
  ap, ◌∙◌, arith, Bool-cases, Option-cases, get_elem?, length, take, drop, next_some,
}
use freenote_probe.Options.{first, onward, wrapped, search_from}
use freenote_probe.Options.Rows.{CliOpt}

module _ (test : CliOpt → Bool) where
  first_passes :
      (rows : List CliOpt) {n : ℕ}
      → first test rows ≡ some n
      → (r : CliOpt) × (get_elem? rows n ≡ some r) × (test r ≡ true)
  unfolding first
  first_passes [] e = cc
  first_passes (r ∷ rows) {n} e = elim (Bool-cases (test r)) [
    | inl t ↦ let z : 0 ≡ n = ground (arith, rw t at e) in rw (← z) (r, refl, t)
    | inr t ↦
        let (m, found, z) = next_some (first test rows) (rw t at e) in
        rw (← z) (first_passes rows found)
  ]

  -- A row that passes is found from its own position.
  first_here :
      (rows : List CliOpt) (n : ℕ) {r : CliOpt}
      → get_elem? rows n ≡ some r
      → test r ≡ true
      → first test (drop n rows) ≡ some 0
  unfolding first
  first_here [] n slot t = cc
  first_here (q ∷ rows) zero {r} slot t = let same : q ≡ r = cc in rw (same, t) refl
  first_here (q ∷ rows) (suc n) slot t = first_here rows n slot t

  get_elem?-drop :
      (rows : List CliOpt) (c n : ℕ) → get_elem? (drop c rows) n ≡ get_elem? rows (c + n)
  get_elem?-drop rows zero n = ap (get_elem? rows) (let e : n ≡ 0 + n = omega arith in e)
  get_elem?-drop [] (suc c) n = refl
  get_elem?-drop (r ∷ rows) (suc c) n =
      get_elem?-drop rows c n
      ∙ ap (get_elem? (r ∷ rows)) (let e : suc (c + n) ≡ suc c + n = omega arith in e)

  get_elem?-take :
      (rows : List CliOpt) (c n : ℕ) {r : CliOpt}
      → get_elem? (take c rows) n ≡ some r
      → get_elem? rows n ≡ some r
  get_elem?-take rows zero n e = cc
  get_elem?-take [] (suc c) n e = cc
  get_elem?-take (q ∷ rows) (suc c) zero e = e
  get_elem?-take (q ∷ rows) (suc c) (suc n) e = get_elem?-take rows c n e

  abbrev pub Passes : List CliOpt → ℕ → Type 0
  Passes rows n = (r : CliOpt) × (get_elem? rows n ≡ some r) × (test r ≡ true)

  abbrev second : List CliOpt → ℕ → Option ℕ × ℕ
  second rows start = onward start (length rows) (wrapped start (first test (take start rows))) none

  wrapped-Passes :
      (rows : List CliOpt) (start : ℕ) {n : ℕ}
      → (second rows start).0 ≡ some n
      → ((second rows start).1 ≡ n) × Passes rows n
  unfolding onward wrapped
  wrapped-Passes rows start {n} e = elim (Bool-cases (start == 0)) [
    | inl z ↦ absurd (let x : none ≡ some n = rw z at e in cc)
    | inr z ↦ elim (Option-cases (first test (take start rows))) [
      | inl f ↦ absurd (let x : none ≡ some n = rw (z, f) at e in cc)
      | inr (m, f) ↦
          let same : m ≡ n = ground (arith, rw (z, f) at e) in
          let (r, slot, t) = first_passes (take start rows) f in
          (
            rw (z, f) same,
            (r, ap (get_elem? rows) (sym same) ∙ get_elem?-take rows start m slot, t),
          )
    ]
  ]

  -- What a search finds passes the test, and the variable stays there.
  pub search_from-Passes :
      (rows : List CliOpt) (start : ℕ) {n : ℕ}
      → (search_from test rows start).0 ≡ some n
      → ((search_from test rows start).1 ≡ n) × Passes rows n
  unfolding search_from
  search_from-Passes rows start {n} e = elim (Option-cases (first test (drop start rows))) [
    | inr (m, d) ↦
        let z : start + m ≡ n = ground (arith, rw d at e) in
        let (r, slot, t) = first_passes (drop start rows) d in
        (rw d z, (r, ap (get_elem? rows) (sym z) ∙ sym (get_elem?-drop rows start m) ∙ slot, t))
    | inl d ↦ rw d (wrapped-Passes rows start (rw d at e))
  ]

  pub search_again :
      (rows : List CliOpt) (n : ℕ) → Passes rows n → search_from test rows n ≡ (some n, n)
  unfolding search_from onward
  search_again rows n (r, slot, t) =
      rw (first_here rows n slot t) (ap (λ j. (some j, j)) (let e : n + 0 ≡ n = omega arith in e))
