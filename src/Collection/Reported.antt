-- ===== src/Collection/Reported.antt =====
-- The tasks of src/lib/task.c's table that src/lib/collection.c reports, in the order in which
-- `get_completed` gives them.
use freenote_probe.Base.{
  ℕ, zero, suc, Bool, false, some, List, [], ◌∷◌, ◌++◌, if◌then◌else◌, ◌≡◌, refl, ap, ◌∙◌, arith,
  get_elem?, set, count, inl, inr, >>=-eq-some, Bool-cases,
}
use freenote_probe.Task.Types.{Task, Tasks, complete, impossible, statustest, tasks_itest}

-- The tasks that pass a test, in the order of their slots.
unfoldable pub picked : (Task → Bool) → Tasks → List Task
picked test [] = []
picked test (t ∷ ts) = let rest = picked test ts in if test t then t ∷ rest else rest

-- The tasks to report, in this order: those that are complete, and then those that are impossible.
abbrev pub reported : Tasks → List Task
reported ts = picked (statustest complete) ts ++ picked (statustest impossible) ts

pub picked-nil : (test : Task → Bool) (ts : Tasks) → count test ts ≡ 0 → picked test ts ≡ []
unfolding picked
picked-nil test [] h = refl
picked-nil test (t ∷ ts) h = elim (Bool-cases (test t)) [
  | inl e ↦ absurd (omega (arith, rw e at h))
  | inr e ↦ rw e (picked-nil test ts (omega (arith, rw e at h)))
]

-- The first task that passes is written over by one that does not.
pub picked-first :
    (test : Task → Bool) (ts : Tasks) (i : ℕ) (v : Task) {t : Task}
    → tasks_itest test ts ≡ some i
    → get_elem? ts i ≡ some t
    → test v ≡ false
    → picked test ts ≡ t ∷ picked test (set ts i v)
unfolding picked tasks_itest
picked-first test [] i v s at out = absurd (cc)
picked-first test (u ∷ ts) zero v {t} s at out = elim (Bool-cases (test u)) [
  | inl e ↦ let same : u ≡ t = cc in rw (e, out) (ap (λ w. w ∷ picked test ts) same)
  | inr e ↦ let (j, found, late) = >>=-eq-some (tasks_itest test ts) _ (rw e at s) in absurd (cc)
]
picked-first test (u ∷ ts) (suc i) v s at out = elim (Bool-cases (test u)) [
  | inl e ↦ absurd (let early : some 0 ≡ some (suc i) = rw e at s in cc)
  | inr e ↦
      let (j, found, late) = >>=-eq-some (tasks_itest test ts) _ (rw e at s) in
      let same : j ≡ i = cc in rw e (picked-first test ts i v (found ∙ ap some same) at out)
]

-- Writing over a task that does not pass by another that does not.
pub picked-set :
    (test : Task → Bool) (ts : Tasks) (i : ℕ) (v : Task) {t : Task}
    → get_elem? ts i ≡ some t
    → test t ≡ false
    → test v ≡ false
    → picked test (set ts i v) ≡ picked test ts
unfolding picked
picked-set test [] i v at old new = refl
picked-set test (u ∷ ts) zero v {t} at old new =
    let same : test u ≡ false = ground (arith, at, old) in rw (new, same) refl
picked-set test (u ∷ ts) (suc i) v at old new = rw (picked-set test ts i v at old new) refl
