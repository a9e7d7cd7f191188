-- ===== src/Task/Describe.antt =====
-- src/lib/task.c: `nv_to_task`, which reads a task from the id and the description that the
-- dispatch server sends.
use freenote_probe.Base.{Option, none, some, [], ◌∷◌, ltb, if◌then◌else◌, ◌>>=◌, length, drop}
use freenote_probe.Base.Int.{ℤ, pos, eq_ℤ}
use freenote_probe.CString.{Bytes, atoi, strchr}
use freenote_probe.Task.Types.{valid_task_magic, data_size, Task, init_task, todo}

-- The text behind the next comma (`NEXTINLIST`), or `none` within where there is no comma. The
-- search begins behind the first character, which at the end of the text lies outside it: a fault.
unfoldable pub next_in_list : Bytes → Option (Option Bytes)
next_in_list [] = none
next_in_list (c ∷ p) = some (elim (strchr p b',') [ none ↦ none | some q ↦ some (drop 1 q) ])

-- What is read so far, and the rest of the description.
unfoldable pub with_type : Task → Bytes → Task
with_type r desc = record r { type = atoi desc }

unfoldable pub accept : Task → Bytes → Option Task
accept r p =
    if ltb (length p) data_size
    then some (record r { content = p; magic = valid_task_magic; status = todo })
    else none

-- What follows the second comma, with the same two kinds of `none`.
unfoldable pub third_field : Bytes → Option (Option Bytes)
unfolding next_in_list
third_field desc =
    next_in_list desc >>= λ second. elim second [ none ↦ some none | some p ↦ next_in_list p ]

-- The outer `none` is a fault: a read behind the description, or the overflow of `data` by
-- `strcpy`, which copies with no bound. A description that does not parse gives a task whose magic
-- is not valid.
unfoldable pub nv_to_task : ℤ → Bytes → Bytes → Option Task
unfolding third_field with_type accept
nv_to_task workid urlid desc =
    let r = record init_task { workid = workid; taskid = atoi urlid } in
    let third = third_field desc in
    if eq_ℤ r.taskid (pos 0)
    then some r
    else (third >>= λ field. elim field [
      | none ↦ some (with_type r desc)
      | some p ↦ accept (with_type r desc) p
    ])
