-- ===== src/Task/Recursion.antt =====
-- The depth of the recursion of `mark_impossible` in src/lib/task.c.
use freenote_probe.Base.{
  get_elem?-set_self, Option-cases, get_elem?_lt, lt_of_get_elem?, ℕ, zero, suc, ◌+◌, ◌≤◌, ◌<◌,
  ◌==◌, Option, none, some, [], ◌∷◌, ◌≡◌, ◌≢◌, refl, ap, sym, ◌∙◌, arith, length, get_elem?, set,
  Bool-cases, inl, inr, ◌⊎◌, All, All-get_elem?, ==_iff,
}
use freenote_probe.Base.Int.{ℤ, pos, eq_ℤ_iff}
use freenote_probe.Task.Types.{Task, Tasks, paternity_test, impossible}
use freenote_probe.Task.Status.{mark_impossible, visit, walk}
use freenote_probe.Task.Impossible.{child-IsTask, visit-Keeps, mark_impossible-Keeps}
use freenote_probe.Task.Slots.{SlotOk, IsValid, IsValid-set, IsTask-status}
use freenote_probe.Task.Marking.{
  Marked, Marked-set, Marked-get_elem?, Marked-length, visit-Marks, mark_impossible-Marked,
}

-- A task that is its own parent.
pub record OwnParent (id : ℤ) (us : Tasks) (k : ℕ) : Type 0 where
  pub self : Task
  pub here : get_elem? us k ≡ some self
  pub id_is : self.taskid ≡ id
  pub parent_is : self.parent ≡ id

OwnParent-set :
    {id : ℤ} {us : Tasks} (k : ℕ) (v : Task)
    → (own : OwnParent id us k) → v ≡ record (own.self) { status = impossible }
    → OwnParent id (set us k v) k
OwnParent-set {id} {us} k v own e = record {
  self = v;
  here = get_elem?-set_self us k v (lt_of_get_elem? us k own.here);
  id_is = ap (λ (t : Task). t.taskid) e ∙ own.id_is;
  parent_is = ap (λ (t : Task). t.parent) e ∙ own.parent_is;
}

OwnParent-Marked :
    {id : ℤ} {us vs : Tasks} (k : ℕ) → Marked us vs → OwnParent id us k → OwnParent id vs k
OwnParent-Marked {us = us} {vs = vs} k m own =
    let (t, at, same_id, same_parent) = Marked-get_elem? us vs k m own.here in
    record {
      self = t;
      here = at;
      id_is = same_id ∙ own.id_is;
      parent_is = same_parent ∙ own.parent_is;
    }

visit-OwnParent :
    (descend : ℤ → Tasks → Option Tasks) (id : ℤ) (k : ℕ) (us : Tasks) (t : Task)
    → ((vs : Tasks) → OwnParent id vs k → descend id vs ≡ none)
    → OwnParent id us k
    → get_elem? us k ≡ some t
    → visit descend id k t us ≡ none
unfolding visit
visit-OwnParent descend id k us t ih own at =
    let same : own.self ≡ t = cc in
    let id_is : t.taskid ≡ id = ap (λ (t : Task). t.taskid) (sym same) ∙ own.id_is in
    let parent_is : t.parent ≡ id = ap (λ (t : Task). t.parent) (sym same) ∙ own.parent_is in
    let marked = set us k (record t { status = impossible }) in
    let again : OwnParent id marked k =
      OwnParent-set k (record t { status = impossible })
        (record { self = t; here = at; id_is = id_is; parent_is = parent_is }) refl in
    rw ((eq_ℤ_iff t.parent id).1 parent_is) (ap (λ n. descend n marked) id_is ∙ ih marked again)

walk-OwnParent :
    (depth : ℕ) (id : ℤ) (k left i : ℕ) (us : Tasks)
    → ((vs : Tasks) → OwnParent id vs k → mark_impossible depth id vs ≡ none)
    → i ≤ k
    → k < i + left
    → OwnParent id us k
    → walk (mark_impossible depth) id left i us ≡ none
unfolding walk
walk-OwnParent depth id k zero i us ih lo hi own = absurd (omega arith)
walk-OwnParent depth id k (suc left) i us ih lo hi own =
    let (t, at) = get_elem?_lt us i (omega (arith, lt_of_get_elem? us k own.here)) in
    elim (Option-cases (visit (mark_impossible depth) id i t us)) [
      | inl fault ↦ rw (at, fault)
      | inr (mid, visited) ↦ elim (Bool-cases (i == k)) [
        | inl e ↦
            let same_i : i ≡ k = (==_iff i k).0 e in
            let at' : get_elem? us k ≡ some t = rw (← same_i) at in
            let stops = visit-OwnParent (mark_impossible depth) id k us t ih own at' in cc
        | inr ne ↦
            rw (at, visited)
              (walk-OwnParent depth id k left (i + 1) mid ih (ground (arith, ne)) (omega arith) (
                OwnParent-Marked k
                  (visit-Marks (mark_impossible depth) (mark_impossible-Marked depth) id i t us mid
                    at visited)
                  own))
      ]
    ]

-- `mark_impossible` for a task that is its own parent recurs with no end: no depth is enough. An
-- empty slot is its own parent, with id 0.
pub mark_impossible-OwnParent :
    (depth : ℕ) (id : ℤ) (us : Tasks) (k : ℕ)
    → OwnParent id us k
    → mark_impossible depth id us ≡ none
unfolding mark_impossible
mark_impossible-OwnParent zero id us k own = refl
mark_impossible-OwnParent (suc depth) id us k own =
    walk-OwnParent depth id k (length us) 0 us (λ vs o. mark_impossible-OwnParent depth id vs k o)
      (omega arith) (omega (arith, lt_of_get_elem? us k own.here)) own

-- A task is the child of no task, or stands below its parent in some ranking of the ids.
abbrev pub Ranked : (ℤ → ℕ) → Task → Type 0
Ranked rank t = (t.parent ≡ pos 0) ⊎ (rank t.taskid < rank t.parent)

Marked-Ranked :
    (rank : ℤ → ℕ) (us vs : Tasks) → Marked us vs → All (Ranked rank) us → All (Ranked rank) vs
Marked-Ranked rank [] [] m h = tt
Marked-Ranked rank [] (v ∷ vs) m h = absurd m
Marked-Ranked rank (u ∷ us) [] m h = absurd m
Marked-Ranked rank (u ∷ us) (v ∷ vs) (inl e, m) (h, hs) = (rw e h, Marked-Ranked rank us vs m hs)
Marked-Ranked rank (u ∷ us) (v ∷ vs) (inr e, m) (h, hs) = (rw e h, Marked-Ranked rank us vs m hs)

abbrev Returns : (ℤ → ℕ) → ℕ → (ℤ → Tasks → Option Tasks) → Type 0
Returns rank bound descend =
    (id : ℤ) (us : Tasks)
    → id ≢ pos 0
    → rank id < bound
    → IsValid us
    → All (Ranked rank) us
    → (us' : Tasks) × (descend id us ≡ some us')

visit-Returns :
    (rank : ℤ → ℕ) (depth : ℕ)
    → Returns rank depth (mark_impossible depth)
    → (id : ℤ) (i : ℕ) (t : Task) (us : Tasks) → id ≢ pos 0
    → rank id ≤ depth
    → get_elem? us i ≡ some t
    → IsValid us
    → All (Ranked rank) us
    → (us' : Tasks) × (visit (mark_impossible depth) id i t us ≡ some us')
unfolding visit
visit-Returns rank depth ih id i t us nz le at h ranked = elim (Bool-cases (paternity_test id t)) [
  | inr other ↦ (us, rw other)
  | inl child ↦
      let k = child-IsTask id nz (All-get_elem? SlotOk us i h.slots at) child in
      let is_parent : t.parent ≡ id = (eq_ℤ_iff t.parent id).0 child in
      let below : rank t.taskid < depth = elim (All-get_elem? (Ranked rank) us i ranked at) [
        | inl root ↦ absurd (nz (sym is_parent ∙ root))
        | inr less ↦ omega (arith, ap rank is_parent)
      ] in
      let (us', done) =
        ih t.taskid (set us i (record t { status = impossible })) k.taskid_ok below
          (IsValid-set i _ h (inr (IsTask-status impossible k (λ q. cc))))
          (Marked-Ranked rank us _ (Marked-set us i at) ranked) in
      (us', rw child done)
]

walk-Returns :
    (rank : ℤ → ℕ) (depth : ℕ)
    → Returns rank depth (mark_impossible depth)
    → (id : ℤ) (left i : ℕ) (us : Tasks) → id ≢ pos 0
    → rank id ≤ depth
    → i + left ≡ length us
    → IsValid us
    → All (Ranked rank) us
    → (us' : Tasks) × (walk (mark_impossible depth) id left i us ≡ some us')
unfolding walk
walk-Returns rank depth ih id zero i us nz le fits h ranked = (us, refl)
walk-Returns rank depth ih id (suc left) i us nz le fits h ranked =
    let (t, at) = get_elem?_lt us i (omega arith) in
    let (mid, visited) = visit-Returns rank depth ih id i t us nz le at h ranked in
    let marked =
      visit-Marks (mark_impossible depth) (mark_impossible-Marked depth) id i t us mid at visited in
    let (out, walked) =
      walk-Returns rank depth ih id left (i + 1) mid nz le
        (omega (arith, Marked-length us mid marked))
        (visit-Keeps (mark_impossible depth) (mark_impossible-Keeps depth) id i t us mid nz h
          (All-get_elem? SlotOk us i h.slots at) visited)
        (Marked-Ranked rank us mid marked ranked) in
    (out, rw (at, visited) walked)

-- In a well-formed table whose tasks are ranked below their parents, `mark_impossible` returns for
-- every id other than 0, at any depth above the rank of the id.
pub mark_impossible-Ranked :
    (rank : ℤ → ℕ) (depth : ℕ) (id : ℤ) (us : Tasks)
    → id ≢ pos 0
    → rank id < depth
    → IsValid us
    → All (Ranked rank) us
    → (us' : Tasks) × (mark_impossible depth id us ≡ some us')
unfolding mark_impossible
mark_impossible-Ranked rank zero id us nz lt h ranked = absurd (omega arith)
mark_impossible-Ranked rank (suc depth) id us nz lt h ranked =
    let (out, walked) =
      walk-Returns rank depth (mark_impossible-Ranked rank depth) id (length us) 0 us nz
        (omega arith) (omega arith) h ranked in
    (out, walked)
