-- ===== src/Base/Lists.antt =====
-- Lists measured and indexed by native numbers, under the library's names.
use Prim.Native.Nat.{ℕ, zero, suc, ◌+◌, ◌-◌, ◌<◌, ◌≤◌}
use mathlib.Core.Path.{◌≡◌, refl, ap, ◌∙◌}
use mathlib.Core.Logic.{◌≢◌}
use mathlib.Core.Bool.{Bool}
use mathlib.Core.List.{List, [], ◌∷◌, ◌++◌, map}
use mathlib.Core.Option
use mathlib.Core.Option.{Option, none, some}
use native.Mathlib.Omega.{arith}
use freenote_probe.Base.Tests.{if◌then◌else◌}

module _ {ℓ} {A : Type ℓ} where
  abbrev pub length : List A → ℕ
  length [] = 0
  length (x ∷ xs) = suc (length xs)

  abbrev pub get_elem? : List A → ℕ → Option A
  get_elem? [] i = none
  get_elem? (x ∷ xs) zero = some x
  get_elem? (x ∷ xs) (suc i) = get_elem? xs i

  -- A write out of bounds changes nothing.
  abbrev pub set : List A → ℕ → A → List A
  set [] i v = []
  set (x ∷ xs) zero v = v ∷ xs
  set (x ∷ xs) (suc i) v = x ∷ set xs i v

  abbrev pub take : ℕ → List A → List A
  take zero xs = []
  take (suc n) [] = []
  take (suc n) (x ∷ xs) = x ∷ take n xs

  abbrev pub drop : ℕ → List A → List A
  drop zero xs = xs
  drop (suc n) [] = []
  drop (suc n) (x ∷ xs) = drop n xs

  abbrev pub replicate : ℕ → A → List A
  replicate zero a = []
  replicate (suc n) a = a ∷ replicate n a

  pub length-append : (xs ys : List A) → length (xs ++ ys) ≡ length xs + length ys
  length-append [] ys = omega arith
  length-append (x ∷ xs) ys = omega (arith, length-append xs ys)

module _ {ℓ} {A : Type ℓ} where
  pub length-set : (xs : List A) (i : ℕ) (v : A) → length (set xs i v) ≡ length xs
  length-set [] i v = refl
  length-set (x ∷ xs) zero v = refl
  length-set (x ∷ xs) (suc i) v = ap suc (length-set xs i v)

  pub get_elem?-set_self :
      (xs : List A) (i : ℕ) (v : A) → i < length xs → get_elem? (set xs i v) i ≡ some v
  get_elem?-set_self [] i v h = elim h [ ]
  get_elem?-set_self (x ∷ xs) zero v h = refl
  get_elem?-set_self (x ∷ xs) (suc i) v h = get_elem?-set_self xs i v (omega arith)

  pub get_elem?-set_ne :
      (xs : List A) {i j : ℕ} (v : A) → i ≢ j → get_elem? (set xs i v) j ≡ get_elem? xs j
  get_elem?-set_ne [] v h = refl
  get_elem?-set_ne (x ∷ xs) {i = zero} {j = zero} v h = absurd (h refl)
  get_elem?-set_ne (x ∷ xs) {i = zero} {j = suc j} v h = refl
  get_elem?-set_ne (x ∷ xs) {i = suc i} {j = zero} v h = refl
  get_elem?-set_ne (x ∷ xs) {i = suc i} {j = suc j} v h = get_elem?-set_ne xs v (λ e. h (ap suc e))

  pub get_elem?_lt : (xs : List A) (i : ℕ) → i < length xs → (x : A) × (get_elem? xs i ≡ some x)
  get_elem?_lt [] i h = absurd (omega arith)
  get_elem?_lt (x ∷ xs) zero h = (x, refl)
  get_elem?_lt (x ∷ xs) (suc i) h = get_elem?_lt xs i (omega arith)

  pub lt_of_get_elem? : (xs : List A) (i : ℕ) {x : A} → get_elem? xs i ≡ some x → i < length xs
  lt_of_get_elem? [] i e = cc
  lt_of_get_elem? (y ∷ xs) zero e = omega arith
  lt_of_get_elem? (y ∷ xs) (suc i) e = omega (arith, lt_of_get_elem? xs i e)

  pub set-set : (xs : List A) (i : ℕ) (v w : A) → set (set xs i v) i w ≡ set xs i w
  set-set [] i v w = refl
  set-set (x ∷ xs) zero v w = refl
  set-set (x ∷ xs) (suc i) v w = ap (◌∷◌ x) (set-set xs i v w)

  pub length-replicate : (n : ℕ) (a : A) → length (replicate n a) ≡ n
  length-replicate zero a = refl
  length-replicate (suc n) a = ap suc (length-replicate n a)

  pub length-map {κ} : {B : Type κ} (xs : List A) (f : A → B) → length (map f xs) ≡ length xs
  length-map [] f = refl
  length-map (x ∷ xs) f = ap suc (length-map xs f)

  pub take-length : (xs ys : List A) → take (length xs) (xs ++ ys) ≡ xs
  take-length [] ys = refl
  take-length (x ∷ xs) ys = ap (◌∷◌ x) (take-length xs ys)

  pub drop-length : (xs ys : List A) → drop (length xs) (xs ++ ys) ≡ ys
  drop-length [] ys = refl
  drop-length (x ∷ xs) ys = drop-length xs ys

module _ {ℓ} {A : Type ℓ} where
  pub length-drop : (k : ℕ) (s : List A) → length (drop k s) ≡ length s - k
  length-drop zero s = omega arith
  length-drop (suc k) [] = omega arith
  length-drop (suc k) (x ∷ s) = omega (arith, length-drop k s)

  pub take-append-drop : (n : ℕ) (s : List A) → take n s ++ drop n s ≡ s
  take-append-drop zero s = refl
  take-append-drop (suc n) [] = refl
  take-append-drop (suc n) (x ∷ s) = ap (◌∷◌ x) (take-append-drop n s)

  pub drop_past : (p q : List A) (n : ℕ) → drop (length p + n) (p ++ q) ≡ drop n q
  drop_past [] q n = ap (λ k. drop k q) (let e : 0 + n ≡ n = omega arith in e)
  drop_past (x ∷ p) q n =
      ap (λ k. drop k (x ∷ p ++ q))
        (let e : suc (length p) + n ≡ suc (length p + n) = omega arith in e)
      ∙ drop_past p q n

-- Predicates on all members, by recursion, and the number of members that pass a test.
module _ {ℓ κ} {A : Type ℓ} (P : A → Type κ) where
  abbrev pub All : List A → Type κ
  All [] = Unit
  All (x ∷ xs) = P x × All xs

  pub All-append : (xs ys : List A) → All xs → All ys → All (xs ++ ys)
  All-append [] ys _ hy = hy
  All-append (x ∷ xs) ys (px, hx) hy = (px, All-append xs ys hx hy)

  pub All-set : (xs : List A) (i : ℕ) (v : A) → All xs → P v → All (set xs i v)
  All-set [] i v h p = tt
  All-set (x ∷ xs) zero v (px, hx) p = (p, hx)
  All-set (x ∷ xs) (suc i) v (px, hx) p = (px, All-set xs i v hx p)

  pub All-get_elem? : (xs : List A) (i : ℕ) {x : A} → All xs → get_elem? xs i ≡ some x → P x
  All-get_elem? [] i h e = cc
  All-get_elem? (y ∷ xs) zero {x} (py, hx) e = ground arith
  All-get_elem? (y ∷ xs) (suc i) (py, hx) e = All-get_elem? xs i hx e

module _ {ℓ} {A : Type ℓ} (p : A → Bool) where
  abbrev pub count : List A → ℕ
  count [] = 0
  count (x ∷ xs) = (if p x then 1 else 0) + count xs

  -- Writing slot `i` trades the old member's contribution for the new one's.
  pub count-set :
      (xs : List A) (i : ℕ) (v : A) {x : A}
      → get_elem? xs i ≡ some x
      → count (set xs i v) + (if p x then 1 else 0) ≡ count xs + (if p v then 1 else 0)
  count-set [] i v e = cc
  count-set (y ∷ xs) zero v e = ground arith
  count-set (y ∷ xs) (suc i) v {x} e = omega (arith, count-set xs i v e)

-- The index that a search of a tail found, seen from the whole list.
pub next_none : (o : Option ℕ) → Option.map suc o ≡ none → o ≡ none
next_none none h = refl
next_none (some n) h = cc

pub next_some :
    (o : Option ℕ) {n : ℕ} → Option.map suc o ≡ some n → (m : ℕ) × (o ≡ some m) × (suc m ≡ n)
next_some none h = cc
next_some (some m) {n} h = (m, refl, ground (arith, h))

module _ {ℓ} {A : Type ℓ} where
  -- A beginning, in two parts.
  pub take_add : (a b : ℕ) (s : List A) → take (a + b) s ≡ take a s ++ take b (drop a s)
  take_add zero b s = ap (λ n. take n s) (let e : 0 + b ≡ b = omega arith in e)
  take_add (suc a) zero [] = ap (λ n. take n []) (let e : suc a + 0 ≡ suc a = omega arith in e)
  take_add (suc a) (suc b) [] =
      ap (λ n. take n []) (let e : suc a + suc b ≡ suc (a + suc b) = omega arith in e)
  take_add (suc a) b (x ∷ s) =
      ap (λ n. take n (x ∷ s)) (let e : suc a + b ≡ suc (a + b) = omega arith in e)
      ∙ ap (◌∷◌ x) (take_add a b s)

  pub drop-drop : (a b : ℕ) (s : List A) → drop b (drop a s) ≡ drop (a + b) s
  drop-drop zero b s = ap (λ n. drop n s) (let e : b ≡ 0 + b = omega arith in e)
  drop-drop (suc a) zero [] = ap (λ n. drop n []) (let e : suc a ≡ suc a + 0 = omega arith in e)
  drop-drop (suc a) (suc b) [] =
      ap (λ n. drop n []) (let e : suc (a + suc b) ≡ suc a + suc b = omega arith in e)
  drop-drop (suc a) b (x ∷ s) =
      drop-drop a b s
      ∙ ap (λ n. drop n (x ∷ s)) (let e : suc (a + b) ≡ suc a + b = omega arith in e)

  pub length-take_le : (k : ℕ) (s : List A) → k ≤ length s → length (take k s) ≡ k
  length-take_le zero s h = refl
  length-take_le (suc k) [] h = absurd (omega arith)
  length-take_le (suc k) (x ∷ s) h = omega (arith, length-take_le k s (omega arith))
