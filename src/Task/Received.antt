-- ===== src/Task/Received.antt =====
-- What `nv_to_task` of src/lib/task.c makes of a description `TYPE,ACTION,URL`.
use freenote_probe.Base.{
  ℕ, false, none, some, ◌∷◌, ◌++◌, if◌then◌else◌, ◌≡◌, ◌≢◌, refl, ltb, length, not,
}
use freenote_probe.Base.Int.{ℤ, pos, eq_ℤ}
use freenote_probe.CString.{Bytes, atoi}
use freenote_probe.CString.Search.{Lacks, strchr-append, strchr-Lacks}
use freenote_probe.Task.Describe.{next_in_list, third_field, nv_to_task}
use freenote_probe.Task.Queue.{valid_task}
use freenote_probe.Task.Table.{eq_ℤ_ne}
use freenote_probe.Task.Types.{Task, init_task, todo, valid_task_magic, data_size, null_task}

-- Behind a field of at least one character the next one begins behind the next comma; a comma that
-- is the field's first character does not end it.
next_in_list-append :
    (c : ℕ) (field rest : Bytes)
    → Lacks b',' field
    → next_in_list (c ∷ (field ++ b',' ∷ rest)) ≡ some (some rest)
unfolding next_in_list
next_in_list-append c field rest h = rw (strchr-append field rest b',' h)

-- The description `TYPE,ACTION,URL`, with a type and an action of at least one character.
abbrev pub description : ℕ → Bytes → ℕ → Bytes → Bytes → Bytes
description t type a action url = t ∷ (type ++ b',' ∷ a ∷ (action ++ b',' ∷ url))

-- The task that such a description stands for.
abbrev pub described : ℤ → Bytes → Bytes → Bytes → Task
described workid urlid desc url = record init_task {
  workid = workid;
  taskid = atoi urlid;
  type = atoi desc;
  content = url;
  magic = valid_task_magic;
  status = todo;
}

third_field-description :
    (t : ℕ) (type : Bytes) (a : ℕ) (action url : Bytes)
    → Lacks b',' type
    → Lacks b',' action
    → third_field (description t type a action url) ≡ some (some url)
unfolding third_field
third_field-description t type a action url ht ha =
    rw (next_in_list-append t type _ ht) (next_in_list-append a action url ha)

-- A description `TYPE,ACTION,URL` with an id other than 0 becomes a task that waits, with the number
-- that TYPE begins with as its type and the URL as its content, if the URL and its terminator fit
-- into the `data` field. A longer URL is copied past the end of the field.
pub nv_to_task-description :
    (workid : ℤ) (urlid : Bytes) (t : ℕ) (type : Bytes) (a : ℕ) (action url : Bytes)
    → atoi urlid ≢ pos 0
    → Lacks b',' type
    → Lacks b',' action
    → nv_to_task workid urlid (description t type a action url) ≡ (
        if ltb (length url) data_size
        then some (described workid urlid (description t type a action url) url)
        else none)
unfolding nv_to_task
nv_to_task-description workid urlid t type a action url id ht ha =
    rw (eq_ℤ_ne (atoi urlid) (pos 0) id, third_field-description t type a action url ht ha)

-- The task is one that `task_add` is called for exactly if its type is not 0: numbers that name no
-- kind of task pass.
pub valid_task-described :
    (workid : ℤ) (urlid desc url : Bytes)
    → valid_task (described workid urlid desc url) ≡ not (eq_ℤ (atoi desc) null_task)
unfolding valid_task
valid_task-described workid urlid desc url = refl

-- An empty ACTION is passed over together with its comma: `TYPE,,URL` is no valid task if the URL
-- holds no comma.
pub nv_to_task_empty_action :
    (workid : ℤ) (urlid : Bytes) (t : ℕ) (type url : Bytes)
    → atoi urlid ≢ pos 0
    → Lacks b',' type
    → Lacks b',' url
    → (r : Task) × (nv_to_task workid urlid (t ∷ (type ++ b',' ∷ b',' ∷ url)) ≡ some r)
      × (valid_task r ≡ false)
unfolding nv_to_task
nv_to_task_empty_action workid urlid t type url id ht hu = (
  record init_task { workid = workid; taskid = atoi urlid; type = atoi desc },
  rw (eq_ℤ_ne (atoi urlid) (pos 0) id, third_missing),
  unfold valid_task in refl,
)
  where
    desc : Bytes
    desc = t ∷ (type ++ b',' ∷ b',' ∷ url)

    last_missing : next_in_list (b',' ∷ url) ≡ some none
    last_missing = unfold next_in_list in rw (strchr-Lacks url b',' hu)

    third_missing : third_field desc ≡ some none
    third_missing = unfold third_field in rw (next_in_list-append t type _ ht) last_missing
