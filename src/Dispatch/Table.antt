-- ===== src/Dispatch/Table.antt =====
-- src/lib/dispatch.c: the task table while the tasks of a message are added.
use freenote_probe.Base.{
  true, false, Option, none, some, List, [], ◌∷◌, >>=-eq-some, ◌≡◌, ◌≢◌, refl, ap, sym, ◌∙◌, arith,
  ltb, length, take, Bool-cases, Option-cases, inl, inr,
}
use freenote_probe.Base.Int.{ℤ, pos, eq_ℤ, eq_ℤ_iff}
use freenote_probe.CString.{Bytes, codes, streq, atoi}
use freenote_probe.NvPair.{NvPair, NvList, nv_hash}
use freenote_probe.Task.Types.{
  Task, Tasks, Code, null_task, init_task, data_size, valid_task_magic, todo,
}
use freenote_probe.Task.Queue.{valid_task}
use freenote_probe.Task.Describe.{nv_to_task, third_field, with_type, accept}
use freenote_probe.Task.Slots.{IsValid, task_add-IsValid}
use freenote_probe.Dispatch.{add_valid, add_work, take_work}

-- The type of a valid task is not 0.
pub valid_task-type : (t : Task) → valid_task t ≡ true → t.type ≢ null_task
unfolding valid_task
valid_task-type t h e = ground (arith, e)

accept-taskid : (r : Task) (p : Bytes) {t : Task} → accept r p ≡ some t → t.taskid ≡ r.taskid
unfolding accept
accept-taskid r p {t} e = elim (Bool-cases (ltb (length p) data_size)) [
  | inl fits ↦
      let same : record r { content = p; magic = valid_task_magic; status = todo } ≡ t =
        ground (arith, fits) in
      sym (ap (λ (u : Task). u.taskid) same)
  | inr long ↦ ground (arith, long)
]

named-taskid :
    (work_id : ℤ) (urlid desc : Bytes) {t : Task}
    → eq_ℤ (atoi urlid) (pos 0) ≡ false
    → nv_to_task work_id urlid desc ≡ some t
    → t.taskid ≡ atoi urlid
unfolding nv_to_task with_type
named-taskid work_id urlid desc {t} named e =
    let r = record init_task { workid = work_id; taskid = atoi urlid } in
    let (field, _, e1) = >>=-eq-some (third_field desc) _ (rw (nv_to_task, named) at e) in
    elim (Option-cases field) [
      | inl missing ↦
          let same : with_type r desc ≡ t = ground (arith, missing) in
          sym (ap (λ (u : Task). u.taskid) same)
      | inr (p, there) ↦ accept-taskid (with_type r desc) p (rw there at e1)
    ]

-- A task that is read with the id 0 is not valid.
pub nv_to_task-taskid :
    (work_id : ℤ) (urlid desc : Bytes) {t : Task}
    → nv_to_task work_id urlid desc ≡ some t
    → valid_task t ≡ true
    → t.taskid ≢ pos 0
nv_to_task-taskid work_id urlid desc {t} e v zero_id =
    elim (Bool-cases (eq_ℤ (atoi urlid) (pos 0))) [
      | inl unnamed ↦
          let same : record init_task { workid = work_id; taskid = atoi urlid } ≡ t =
            unfold nv_to_task in ground (arith, unnamed, e) in
          let bad : valid_task (record init_task { workid = work_id; taskid = atoi urlid })
              ≡ false =
            unfold valid_task in refl in
          let good = ap valid_task same ∙ v in cc
      | inr named ↦
          let again =
            (eq_ℤ_iff (atoi urlid) (pos 0)).1
              (sym (named-taskid work_id urlid desc named e) ∙ zero_id) in
          cc
    ]

add_valid-IsValid :
    (ts : Tasks) (t : Task)
    → IsValid ts
    → (valid_task t ≡ true → t.taskid ≢ pos 0)
    → IsValid (add_valid ts t)
unfolding add_valid
add_valid-IsValid ts t h id = elim (Bool-cases (valid_task t)) [
  | inl v ↦ rw v (task_add-IsValid t h (valid_task-type t v) (id v))
  | inr v ↦ rw v h
]

add_work-IsValid :
    (work_id : ℤ) (slots : List (Option NvPair)) (ts : Tasks) {out : Tasks}
    → IsValid ts
    → add_work work_id slots ts ≡ some out
    → IsValid out
unfolding add_work
add_work-IsValid work_id [] ts {out} h e = let same : ts ≡ out = cc in rw (← same) h
add_work-IsValid work_id (none ∷ slots) ts h e = add_work-IsValid work_id slots ts h e
add_work-IsValid work_id (some p ∷ slots) ts {out} h e =
    elim (Bool-cases (streq p.name (codes "work_id"))) [
      | inl skip ↦ add_work-IsValid work_id slots ts h (rw skip at e)
      | inr job ↦
          let (t, read, e1) = >>=-eq-some (nv_to_task work_id p.name p.value) _ (rw job at e) in
          add_work-IsValid work_id slots (add_valid ts t)
            (add_valid-IsValid ts t h (nv_to_task-taskid work_id p.name p.value read)) e1
    ]

-- Whatever list the server sent, where the code takes the work from it the table stays well-formed.
pub take_work-IsValid :
    (rv : Code) (nvl : NvList) (ts : Tasks) {r : Code} {out : Tasks}
    → IsValid ts
    → take_work rv nvl ts ≡ some (r, out)
    → IsValid out
unfolding take_work
take_work-IsValid rv nvl ts {r} {out} h e = elim (Option-cases (nv_hash nvl (codes "work_id"))) [
  | inl missing ↦ let same : ts ≡ out = ground (arith, missing) in rw (← same) h
  | inr (wh, there) ↦ elim (Bool-cases (eq_ℤ (atoi wh) (pos 0))) [
    | inl zero_id ↦ let same : ts ≡ out = ground (arith, there, zero_id) in rw (← same) h
    | inr named ↦
        let (out', added, e1) =
          >>=-eq-some (add_work (atoi wh) (take nvl.size nvl.nvp) ts) _
            (rw (take_work, there, named) at e) in
        let same : out' ≡ out = cc in
        rw (← same) (add_work-IsValid (atoi wh) (take nvl.size nvl.nvp) ts h added)
  ]
]
