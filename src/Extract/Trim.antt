-- ===== src/Extract/Trim.antt =====
-- src/url-extract.c: the loop of `urls_only` over the ends of a match.
use freenote_probe.Base.{
  ℕ, zero, suc, ◌+◌, ◌-◌, ◌≤◌, ◌<◌, true, false, none, some, ◌≡◌, refl, sym, ap, ◌∙◌, arith, length,
  get_elem?, lt_of_get_elem?, Bool-cases, Option-cases, inl, inr, ◌==◌,
}
use freenote_probe.CString.{Bytes}
use freenote_probe.Extract.{is_illegal, trim}

-- What the loop leaves of a match: at both ends there is no illegal character.
pub record Trimmed (line : Bytes) (so eo : ℕ) (m : ℕ × ℕ) : Type 0 where
  pub begins : so ≤ m.0
  pub ends : m.1 ≤ eo
  pub front : is_illegal (get_elem? line m.0) ≡ false
  pub back : is_illegal (get_elem? line (m.1 - 1)) ≡ false

illegal_inside : (line : Bytes) (i : ℕ) → is_illegal (get_elem? line i) ≡ true → i < length line
illegal_inside line i h = elim (Option-cases (get_elem? line i)) [
  | inl e ↦ absurd (let z : is_illegal none ≡ true = rw e at h in cc)
  | inr (c, e) ↦ lt_of_get_elem? line i e
]

before_end :
    (line : Bytes) (j i : ℕ)
    → j < suc i
    → is_illegal (get_elem? line j) ≡ false
    → is_illegal (get_elem? line i) ≡ true
    → j < i
before_end line j i h legal illegal = elim (Bool-cases (j == i)) [
  | inl e ↦
      let same : j ≡ i = ground (arith, e) in
      absurd (
        let z : true ≡ false =
          sym illegal ∙ ap (λ k. is_illegal (get_elem? line k)) (sym same) ∙ legal in
        cc)
  | inr e ↦ ground (arith, e, h)
]

last_is :
    (line : Bytes) (eo : ℕ)
    → is_illegal (get_elem? line eo) ≡ false
    → is_illegal (get_elem? line (suc eo - 1)) ≡ false
last_is line eo b =
    ap (λ k. is_illegal (get_elem? line k)) (let e : suc eo - 1 ≡ eo = omega arith in e) ∙ b

-- If a character that is not illegal stands at `j` before the end of the match, then the loop ends
-- behind `j`, within (length line - so) + eo + 1 rounds, and leaves no illegal character at
-- either end.
pub trim-Trimmed :
    (fuel : ℕ) (line : Bytes) (so eo j : ℕ)
    → so ≤ length line
    → j < eo
    → is_illegal (get_elem? line j) ≡ false
    → length line + eo < fuel + so
    → (m : ℕ × ℕ) × (trim fuel line so eo ≡ some m) × Trimmed line so eo m × (j < m.1)
unfolding trim
trim-Trimmed zero line so eo j inside h legal enough = absurd (omega arith)
trim-Trimmed (suc fuel) line so zero j inside h legal enough = absurd (omega arith)
trim-Trimmed (suc fuel) line so (suc eo) j inside h legal enough =
    elim (Bool-cases (is_illegal (get_elem? line so))) [
      | inl f ↦
          let lt = illegal_inside line so f in
          elim (Bool-cases (is_illegal (get_elem? line eo))) [
            | inl b ↦
                let (m, ran, t, behind) =
                  trim-Trimmed fuel line (so + 1) eo j (omega arith)
                    (before_end line j eo h legal b) legal (omega arith) in
                (
                  m,
                  rw (f, b) ran,
                  record {
                    begins = omega (arith, t.begins);
                    ends = omega (arith, t.ends);
                    front = t.front;
                    back = t.back;
                  },
                  behind,
                )
            | inr b ↦
                let (m, ran, t, behind) =
                  trim-Trimmed fuel line (so + 1) (suc eo) j (omega arith) h legal (omega arith) in
                (
                  m,
                  rw (f, b) ran,
                  record {
                    begins = omega (arith, t.begins);
                    ends = t.ends;
                    front = t.front;
                    back = t.back;
                  },
                  behind,
                )
          ]
      | inr f ↦ elim (Bool-cases (is_illegal (get_elem? line eo))) [
        | inl b ↦
            let (m, ran, t, behind) =
              trim-Trimmed fuel line so eo j inside (before_end line j eo h legal b) legal
                (omega arith) in
            (
              m,
              rw (f, b) ran,
              record {
                begins = t.begins;
                ends = omega (arith, t.ends);
                front = t.front;
                back = t.back;
              },
              behind,
            )
        | inr b ↦ (
          (so, suc eo),
          rw (f, b) refl,
          record { begins = omega arith; ends = omega arith; front = f; back = last_is line eo b },
          h,
        )
      ]
    ]
