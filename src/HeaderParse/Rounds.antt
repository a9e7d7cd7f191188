-- ===== src/HeaderParse/Rounds.antt =====
-- src/header-parse.c: each round of the loop over the lines moves on in the header.
use mathlib.Core.Option
use freenote_probe.Base.{
  length-drop, ℕ, zero, suc, ◌+◌, ◌-◌, ◌≤◌, ◌<◌, Bool, true, false, Option, none, some, [], ◌∷◌,
  ◌&&◌, leb, ltb, ◌≡◌, refl, sym, ap, ◌∙◌, arith, length, drop, Bool-cases, Option-cases, inl, inr,
}
use freenote_probe.CString.{Bytes, strstr, starts_with, starts_with_nocase}
use freenote_probe.Ran.{Ran, returns, aborts, exits, faults, waits, ◌>>=◌}
use freenote_probe.HeaderParse.{
  find, eol, width, spaces, space_at, follows_line, copy_value, take_value, append_value, next_line,
  read_line, read_lines,
}

starts_with_fits : (s p : Bytes) → starts_with s p ≡ true → length p ≤ length s
unfolding starts_with
starts_with_fits s [] h = omega arith
starts_with_fits [] (y ∷ p) h = absurd cc
starts_with_fits (x ∷ s) (y ∷ p) h = ground (arith, starts_with_fits s p)

strstr_fits :
    (s p : Bytes) (x : ℕ) {q : Bytes}
    → strstr s (x ∷ p) ≡ some q
    → (length q ≤ length s) × (length (x ∷ p) ≤ length q)
unfolding strstr
strstr_fits [] p x e = absurd (unfold starts_with in cc)
strstr_fits (y ∷ s) p x {q} e = elim (Bool-cases (starts_with (y ∷ s) (x ∷ p))) [
  | inl t ↦
      let same : y ∷ s ≡ q = ground (arith, rw t at e) in
      rw (← same) (omega arith, starts_with_fits (y ∷ s) (x ∷ p) t)
  | inr t ↦ let (a, b) = strstr_fits s p x (rw t at e) in (omega (arith, a), b)
]

-- What is found stands at or behind the begin of the search and inside the text.
find_fits :
    (p buf : Bytes) (x from : ℕ) {m : ℕ}
    → find (x ∷ p) buf from ≡ some m
    → (from ≤ m) × (m + length (x ∷ p) ≤ length buf)
find_fits p buf x from {m} e = elim (Option-cases (strstr (drop from buf) (x ∷ p))) [
  | inl t ↦
      absurd
        (let z : none ≡ some m = sym (ap (Option.map (λ q. length buf - length q)) t) ∙ e in cc)
  | inr (q, t) ↦
      let same : length buf - length q ≡ m =
        (let z : some (length buf - length q) ≡ some m =
            sym (ap (Option.map (λ q. length buf - length q)) t) ∙ e in
          ground (arith, z)) in
      let (a, b) = strstr_fits (drop from buf) p x t in
      (
        omega (arith, same, a, b, length-drop {0} from buf),
        omega (arith, same, a, b, length-drop {0} from buf),
      )
]

eol_fits :
    (cr : Bool) (buf : Bytes) (from : ℕ) {m : ℕ}
    → find (eol cr) buf from ≡ some m
    → (from ≤ m) × (m + width cr ≤ length buf)
eol_fits true buf from e = find_fits (10 ∷ []) buf 13 from e
eol_fits false buf from e = find_fits [] buf 10 from e

-- Two continuations of the loop that agree behind `c`, as long as they stay in the text.
abbrev AgreeBehind : Bytes → ℕ → (go go2 : ℕ → Option Bytes → Ran (Option Bytes)) → Type 0
AgreeBehind buf c go go2 =
    (d : ℕ) (ret : Option Bytes) → c < d → d ≤ length buf → go d ret ≡ go2 d ret

module _ (buf : Bytes) (c : ℕ) (go go2 : ℕ → Option Bytes → Ran (Option Bytes))
    (same : AgreeBehind buf c go go2) where
  bind_same :
      (m : Ran Bytes) (d : ℕ)
      → c < d
      → d ≤ length buf
      → (m >>= λ v. go d (some v)) ≡ (m >>= λ v. go2 d (some v))
  bind_same (returns v) d h k = same d (some v) h k
  bind_same aborts d h k = refl
  bind_same exits d h k = refl
  bind_same faults d h k = refl
  bind_same waits d h k = refl

  width_pos : (cr : Bool) → 0 < width cr
  width_pos true = omega arith
  width_pos false = omega arith

  next_line_same :
      (cr : Bool) (ret : Option Bytes) (o : Option ℕ)
      → ((m : ℕ) → o ≡ some m → (c + width cr ≤ m) × (m + width cr ≤ length buf))
      → next_line go ret o ≡ next_line go2 ret o
  next_line_same cr ret none h = refl
  next_line_same cr ret (some m) h =
      let (a, b) = h m refl in same m ret (omega (arith, a, width_pos cr)) (omega (arith, b))

  take_value_same :
      (cr : Bool) (from : ℕ) (o : Option ℕ)
      → c ≤ from
      → ((m : ℕ) → o ≡ some m → (from ≤ m) × (m + width cr ≤ length buf))
      → take_value go cr buf from o ≡ take_value go2 cr buf from o
  take_value_same cr from none k h = refl
  take_value_same cr from (some m) k h =
      let (a, b) = h m refl in
      bind_same (copy_value buf (from + spaces (drop from buf)) m) (m + width cr)
        (omega (arith, a, k, width_pos cr)) b

  append_value_same :
      (cr : Bool) (ret : Bytes) (o : Option ℕ)
      → ((m : ℕ) → o ≡ some m → (c ≤ m) × (m + width cr ≤ length buf))
      → append_value go cr buf c ret o ≡ append_value go2 cr buf c ret o
  append_value_same cr ret none h = refl
  append_value_same cr ret (some m) h =
      let (a, b) = h m refl in
      elim (Bool-cases (leb (c + spaces (drop c buf)) m)) [
        | inl t ↦ rw (append_value, t) (same _ _ (omega (arith, a, width_pos cr)) b)
        | inr t ↦ rw (append_value, t) refl
      ]

  read_line_same :
      (cr : Bool) (h : Bytes) (ret : Option Bytes)
      → read_line go cr h buf c ret ≡ read_line go2 cr h buf c ret
  read_line_same cr h none = elim (Bool-cases (starts_with_nocase (drop c buf) h)) [
    | inl t ↦ rw t (
        take_value_same cr (c + length h) _ (omega arith) (λ m e. eol_fits cr buf (c + length h) e))
    | inr t ↦ rw t (next_line_same cr none _ (λ m e. eol_fits cr buf (c + width cr) e))
  ]
  read_line_same cr h (some ret) = elim (Bool-cases (space_at buf c && follows_line cr buf c)) [
    | inl t ↦ rw t (append_value_same cr ret _ (λ m e. eol_fits cr buf c e))
    | inr t ↦ rw t (next_line_same cr (some ret) _ (λ m e. eol_fits cr buf (c + width cr) e))
  ]

-- The loop comes to an end by itself: from an offset in the text, any two numbers of rounds that
-- reach the end of the text, one byte a round, give the same result. `get_header_dup` takes
-- length buf + 2 of them.
pub read_lines_rounds :
    (f g : ℕ) (cr : Bool) (h : Bytes) (split : ℕ) (buf : Bytes) (c : ℕ) (ret : Option Bytes)
    → c ≤ length buf
    → length buf < f + c
    → length buf < g + c
    → read_lines f cr h split buf c ret ≡ read_lines g cr h split buf c ret
unfolding read_lines
read_lines_rounds zero g cr h split buf c ret inside enough enough2 = absurd (omega arith)
read_lines_rounds (suc f) zero cr h split buf c ret inside enough enough2 = absurd (omega arith)
read_lines_rounds (suc f) (suc g) cr h split buf c ret inside enough enough2 =
    let again =
      read_line_same buf c (λ d r. read_lines f cr h split buf d r)
        (λ d r. read_lines g cr h split buf d r)
        (λ d r behind fits.
          read_lines_rounds f g cr h split buf d r fits (omega arith) (omega arith))
        cr h ret in
    elim (Bool-cases (ltb split c)) [ inl t ↦ rw t refl | inr t ↦ rw t again ]
