-- ===== src/Task/Table.antt =====
-- The search of the task table of src/lib/task.c, and writes to the slot found.
use freenote_probe.Base.{
  ◌∙◌, ℕ, zero, suc, ◌+◌, ◌<◌, Bool, true, false, none, some, [], ◌∷◌, ◌≡◌, ◌≢◌, refl, arith,
  get_elem?, set, count, count-set, Bool-cases, inl, inr, ◌⊎◌,
}
use freenote_probe.Base.Int.{ℤ, eq_ℤ, eq_ℤ_iff}
use freenote_probe.Task.Types.{
  TaskStat, invalid, todo, running, complete, reported, impossible, eq_stat, Task, Tasks,
  tasks_itest,
}

-- The slot that a search found, with the task in it.
pub record Found (test : Task → Bool) (ts : Tasks) : Type 0 where
  pub index : ℕ
  pub task : Task
  pub searched : tasks_itest test ts ≡ some index
  pub holds : get_elem? ts index ≡ some task
  pub passes : test task ≡ true

-- A search finds a slot that passes, or no slot passes.
pub tasks_itest-cases :
    (test : Task → Bool) (ts : Tasks)
    → (tasks_itest test ts ≡ none) × (count test ts ≡ 0) ⊎ Found test ts
unfolding tasks_itest
tasks_itest-cases test [] = inl (refl, refl)
tasks_itest-cases test (t ∷ ts) = elim (Bool-cases (test t)) [
  | inl e ↦ inr (record { index = 0; task = t; searched = rw e; holds = refl; passes = e })
  | inr e ↦ elim (tasks_itest-cases test ts) [
    | inl (missing, nothing) ↦ inl (rw (e, missing), rw (e, nothing) (omega arith))
    | inr f ↦ inr (record {
      index = suc f.index;
      task = f.task;
      searched = rw (e, f.searched);
      holds = f.holds;
      passes = f.passes;
    })
  ]
]

pub count_pos :
    (test : Task → Bool) (ts : Tasks) (i : ℕ) {t : Task}
    → get_elem? ts i ≡ some t
    → test t ≡ true
    → 0 < count test ts
count_pos test [] i h e = cc
count_pos test (u ∷ us) zero {t} h e = ground arith
count_pos test (u ∷ us) (suc i) h e = omega (arith, count_pos test us i h e)

-- Writing a slot that passes the test with a task that does not lowers the count by one.
pub count-set_drop :
    (test : Task → Bool) (ts : Tasks) (i : ℕ) (v : Task) {t : Task}
    → get_elem? ts i ≡ some t
    → test t ≡ true
    → test v ≡ false
    → count test (set ts i v) + 1 ≡ count test ts
count-set_drop test ts i v {t} at old new =
    rw (old, new) at (count-set test ts i v at) ∙ omega arith

pub count-set_rise :
    (test : Task → Bool) (ts : Tasks) (i : ℕ) (v : Task) {t : Task}
    → get_elem? ts i ≡ some t
    → test t ≡ false
    → test v ≡ true
    → count test (set ts i v) ≡ count test ts + 1
count-set_rise test ts i v {t} at old new =
    omega (arith, rw (old, new) at (count-set test ts i v at))

pub eq_stat_ne : (s s' : TaskStat) → s ≢ s' → eq_stat s s' ≡ false
eq_stat_ne invalid invalid h = absurd (h refl)
eq_stat_ne todo todo h = absurd (h refl)
eq_stat_ne running running h = absurd (h refl)
eq_stat_ne complete complete h = absurd (h refl)
eq_stat_ne reported reported h = absurd (h refl)
eq_stat_ne impossible impossible h = absurd (h refl)
eq_stat_ne _ _ h = refl

pub eq_stat_eq : (s s' : TaskStat) → eq_stat s s' ≡ true → s ≡ s'
eq_stat_eq invalid invalid h = refl
eq_stat_eq _ _ h = ground arith

pub eq_ℤ_ne : (a b : ℤ) → a ≢ b → eq_ℤ a b ≡ false
eq_ℤ_ne a b h = elim (Bool-cases (eq_ℤ a b)) [ inl e ↦ absurd (h ((eq_ℤ_iff a b).0 e)) | inr e ↦ e ]
