-- ===== src/Task/Marking.antt =====
-- What `mark_impossible` of src/lib/task.c writes.
use freenote_probe.Base.{
  >>=-eq-some, ℕ, zero, suc, ◌+◌, Option, some, [], ◌∷◌, ◌≡◌, refl, ap, sym, ◌∙◌, arith, length,
  get_elem?, set, Bool-cases, inl, inr, ◌⊎◌,
}
use freenote_probe.Base.Int.{ℤ}
use freenote_probe.Task.Types.{Task, Tasks, paternity_test, impossible}
use freenote_probe.Task.Status.{mark_impossible, visit, walk}

-- Each slot is as before, or has the status IMPOSSIBLE and is otherwise as before.
abbrev pub Marked : Tasks → Tasks → Type 0
Marked [] [] = Unit
Marked [] (t' ∷ ts') = ⊥
Marked (t ∷ ts) [] = ⊥
Marked (t ∷ ts) (t' ∷ ts') = ((t' ≡ t) ⊎ (t' ≡ record t { status = impossible })) × Marked ts ts'

Marked-refl : (ts : Tasks) → Marked ts ts
Marked-refl [] = tt
Marked-refl (t ∷ ts) = (inl refl, Marked-refl ts)

Marked-trans : (a b c : Tasks) → Marked a b → Marked b c → Marked a c
Marked-trans [] [] [] h k = tt
Marked-trans [] [] (z ∷ c) h k = absurd k
Marked-trans [] (y ∷ b) c h k = absurd h
Marked-trans (x ∷ a) [] c h k = absurd h
Marked-trans (x ∷ a) (y ∷ b) [] h k = absurd k
Marked-trans (x ∷ a) (y ∷ b) (z ∷ c) (h, hs) (k, ks) = (one h k, Marked-trans a b c hs ks)
  where
    one :
        (y ≡ x) ⊎ (y ≡ record x { status = impossible })
        → (z ≡ y) ⊎ (z ≡ record y { status = impossible })
        → (z ≡ x) ⊎ (z ≡ record x { status = impossible })
    one (inl e) (inl e') = inl (e' ∙ e)
    one (inl e) (inr e') = inr (e' ∙ ap (λ (t : Task). record t { status = impossible }) e)
    one (inr e) (inl e') = inr (e' ∙ e)
    one (inr e) (inr e') = inr (e' ∙ ap (λ (t : Task). record t { status = impossible }) e)

pub Marked-set :
    (ts : Tasks) (i : ℕ) {t : Task}
    → get_elem? ts i ≡ some t
    → Marked ts (set ts i (record t { status = impossible }))
Marked-set [] i e = cc
Marked-set (u ∷ ts) zero {t} e =
    let same : u ≡ t = cc in
    (inr (ap (λ (t : Task). record t { status = impossible }) (sym same)), Marked-refl ts)
Marked-set (u ∷ ts) (suc i) e = (inl refl, Marked-set ts i e)

pub Marked-length : (ts us : Tasks) → Marked ts us → length us ≡ length ts
Marked-length [] [] m = refl
Marked-length [] (u ∷ us) m = absurd m
Marked-length (t ∷ ts) [] m = absurd m
Marked-length (t ∷ ts) (u ∷ us) (h, m) = ap suc (Marked-length ts us m)

-- The task of a slot keeps its ids.
pub Marked-get_elem? :
    (ts us : Tasks) (i : ℕ) {t : Task}
    → Marked ts us
    → get_elem? ts i ≡ some t
    → (u : Task) × (get_elem? us i ≡ some u) × (u.taskid ≡ t.taskid) × (u.parent ≡ t.parent)
Marked-get_elem? [] us i m e = cc
Marked-get_elem? (x ∷ ts) [] i m e = absurd m
Marked-get_elem? (x ∷ ts) (y ∷ us) zero {t} (inl h, m) e =
    let same : x ≡ t = cc in
    (y, refl, ap (λ (t : Task). t.taskid) (h ∙ same), ap (λ (t : Task). t.parent) (h ∙ same))
Marked-get_elem? (x ∷ ts) (y ∷ us) zero {t} (inr h, m) e =
    let same : x ≡ t = cc in
    (
      y,
      refl,
      ap (λ (t : Task). t.taskid) h ∙ ap (λ (t : Task). t.taskid) same,
      ap (λ (t : Task). t.parent) h ∙ ap (λ (t : Task). t.parent) same,
    )
Marked-get_elem? (x ∷ ts) (y ∷ us) (suc i) (h, m) e = Marked-get_elem? ts us i m e

abbrev pub Marks : (ℤ → Tasks → Option Tasks) → Type 0
Marks descend = (id : ℤ) (us us' : Tasks) → descend id us ≡ some us' → Marked us us'

pub visit-Marks :
    (descend : ℤ → Tasks → Option Tasks)
    → Marks descend
    → (id : ℤ) (i : ℕ) (t : Task) (us us' : Tasks) → get_elem? us i ≡ some t
    → visit descend id i t us ≡ some us'
    → Marked us us'
unfolding visit
visit-Marks descend marks id i t us us' at e = elim (Bool-cases (paternity_test id t)) [
  | inl p ↦ Marked-trans us _ us' (Marked-set us i at) (marks t.taskid _ us' (rw p at e))
  | inr p ↦ let same : us ≡ us' = ground (arith, p) in rw (← same) (Marked-refl us)
]

walk-Marks :
    (descend : ℤ → Tasks → Option Tasks)
    → Marks descend
    → (id : ℤ) (left i : ℕ) (us us' : Tasks) → walk descend id left i us ≡ some us'
    → Marked us us'
unfolding walk
walk-Marks descend marks id zero i us us' e =
    let same : us ≡ us' = cc in rw (← same) (Marked-refl us)
walk-Marks descend marks id (suc left) i us us' e =
    let (t, at, e1) = >>=-eq-some (get_elem? us i) _ e in
    let (mid, visited, e2) = >>=-eq-some (visit descend id i t us) _ e1 in
    Marked-trans us mid us' (visit-Marks descend marks id i t us mid at visited)
      (walk-Marks descend marks id left (i + 1) mid us' e2)

-- Where `mark_impossible` returns, it has changed nothing but statuses, and those to IMPOSSIBLE.
pub mark_impossible-Marked :
    (depth : ℕ) (id : ℤ) (us us' : Tasks) → mark_impossible depth id us ≡ some us' → Marked us us'
unfolding mark_impossible
mark_impossible-Marked zero id us us' e = cc
mark_impossible-Marked (suc depth) id us us' e =
    walk-Marks (mark_impossible depth) (mark_impossible-Marked depth) id (length us) 0 us us' e
