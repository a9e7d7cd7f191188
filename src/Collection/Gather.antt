-- ===== src/Collection/Gather.antt =====
-- The loop of `collection_report` in src/lib/collection.c on a well-formed table.
use freenote_probe.Base.{
  true, ℕ, zero, suc, ◌+◌, ◌≤◌, ◌<◌, Option, none, some, List, [], ◌∷◌, ◌++◌, ◌≡◌, refl, sym, ◌∙◌,
  arith, All, ltb, length, length-append, append_assoc, append-nil, ==_iff, inl, inr, Option-cases,
}
use freenote_probe.CString.{Bytes, codes}
use freenote_probe.CString.Decimal.{decimal}
use freenote_probe.NvPair.{NvPair, NvList, nv_list_init}
use freenote_probe.NvPair.Slots.{Holds, nv_list_init-Holds, nv_list_insert-Holds}
use freenote_probe.Task.Types.{
  Task, Tasks, max_tasks, valid_task_magic, complete, impossible, statustest,
}
use freenote_probe.Task.Slots.{IsValid, IsTask}
use freenote_probe.Task.Counts.{free}
use freenote_probe.Task.Text.{task_to_s}
use freenote_probe.Collection.{printed, note_work, gather, report_list}
use freenote_probe.Collection.Reported.{reported, picked-nil}
use freenote_probe.Collection.Taken.{ended, ended-le, taken}

task_to_s-IsTask :
    (inet_ntoa : ℕ → Bytes) (t : Task)
    → IsTask t
    → (text : Bytes) × (task_to_s inet_ntoa t ≡ some text)
unfolding task_to_s
task_to_s-IsTask inet_ntoa t k = elim (Option-cases (task_to_s inet_ntoa t)) [
  | inr text ↦ text
  | inl missing ↦ absurd (ground (arith, missing, (==_iff t.magic valid_task_magic).1 k.magic_ok))
]

-- The ids and the text of a task fit into the buffers `tid`, `wid` and `buf`.
abbrev pub FitsBuffers : (ℕ → Bytes) → Task → Type 0
FitsBuffers inet_ntoa t =
    (length (decimal t.taskid) < 10)
    × (length (decimal t.workid) < 10)
    × ((text : Bytes) → task_to_s inet_ntoa t ≡ some text → length text < 256)

-- One pair for each task: its id, and its text.
abbrev pub Pairs : (ℕ → Bytes) → List Task → List NvPair → Type 0
Pairs inet_ntoa [] [] = Unit
Pairs inet_ntoa [] (p ∷ ps) = ⊥
Pairs inet_ntoa (t ∷ ts) [] = ⊥
Pairs inet_ntoa (t ∷ ts) (p ∷ ps) =
    (p.name ≡ decimal t.taskid) × (task_to_s inet_ntoa t ≡ some p.value) × Pairs inet_ntoa ts ps

-- `wid` after the tasks: the work id of the first one, if it was not set before.
abbrev noted : Option Bytes → List Task → Option Bytes
noted (some w) ts = some w
noted none [] = none
noted none (t ∷ ts) = some (decimal t.workid)

printed_fits : (size : ℕ) (text : Bytes) → length text < size → printed size text ≡ some text
printed_fits size text h = let e : ltb (length text) size ≡ true = ground (arith, h) in rw e refl

note_work-noted :
    (wid : Option Bytes) (t : Task) (ts : List Task)
    → length (decimal t.workid) < 10
    → (next : Option Bytes) × (note_work wid t ≡ some next) × (noted next ts ≡ noted wid (t ∷ ts))
note_work-noted none t ts h =
    (some (decimal t.workid), rw (printed_fits 10 (decimal t.workid) h) refl, refl)
note_work-noted (some w) t ts h = (some w, refl, refl)

-- What the loop made of a list that held `ps` and a table `ts`.
record Gathered (inet_ntoa : ℕ → Bytes) (run : Option (NvList × Option Bytes × Tasks)) (size : ℕ)
    (ps : List NvPair) (wid : Option Bytes) (ts : Tasks) : Type 0 where
  nvl : NvList
  wid' : Option Bytes
  out : Tasks
  more : List NvPair
  returned : run ≡ some (nvl, wid', out)
  holds : Holds nvl (ps ++ more)
  pairs : Pairs inet_ntoa (reported ts) more
  all : length more ≡ ended ts
  same_size : nvl.size ≡ size
  is_noted : wid' ≡ noted wid (reported ts)
  valid : IsValid out
  none_left : ended out ≡ 0
  freed : free out ≡ free ts + ended ts

reported-nil : (ts : Tasks) → ended ts ≡ 0 → reported ts ≡ []
reported-nil ts h =
    rw
      (
        picked-nil (statustest complete) ts (omega (arith, h)),
        picked-nil (statustest impossible) ts (omega (arith, h)),
      )
      refl

noted-nil : (wid : Option Bytes) → noted wid [] ≡ wid
noted-nil none = refl
noted-nil (some w) = refl

gather-Gathered :
    (inet_ntoa : ℕ → Bytes) (fuel : ℕ) (nvl : NvList) (ps : List NvPair) (wid : Option Bytes)
    (ts : Tasks)
    → IsValid ts
    → All (FitsBuffers inet_ntoa) (reported ts)
    → Holds nvl ps
    → length ps + ended ts ≤ nvl.size
    → ended ts < fuel
    → Gathered inet_ntoa (gather inet_ntoa fuel nvl wid ts) nvl.size ps wid ts
unfolding gather
gather-Gathered inet_ntoa zero nvl ps wid ts h fit held room enough = absurd (omega arith)
gather-Gathered inet_ntoa (suc fuel) nvl ps wid ts h fit held room enough = elim (taken ts h) [
  | inl (e, nothing) ↦ record {
    nvl = nvl;
    wid' = wid;
    out = ts;
    more = [];
    returned = rw (e, gather);
    holds = rw append-nil held;
    pairs = rw (reported-nil ts nothing) tt;
    all = omega (arith, nothing);
    same_size = refl;
    is_noted = rw (reported-nil ts nothing) (sym (noted-nil wid));
    valid = h;
    none_left = nothing;
    freed = omega (arith, nothing);
  }
  | inr k ↦
      let ((tid_fits, wid_fits, buf_fits), fit_left) = rw k.first at fit in
      let (buf, text) = task_to_s-IsTask inet_ntoa k.task k.is_task in
      let (wid2, is_work, same_wid) = note_work-noted wid k.task (reported k.left) wid_fits in
      let (next, inserted, next_held, next_size) =
        nv_list_insert-Holds nvl ps (decimal k.task.taskid) buf held (omega (arith, k.fewer)) in
      let pair : NvPair = record { name = decimal k.task.taskid; value = buf } in
      let rest =
        gather-Gathered inet_ntoa fuel next (ps ++ pair ∷ []) wid2 k.left k.valid fit_left next_held
          (omega (arith, length-append {0} ps (pair ∷ []), next_size, k.fewer))
          (omega (arith, k.fewer)) in
      record {
        nvl = rest.nvl;
        wid' = rest.wid';
        out = rest.out;
        more = pair ∷ rest.more;
        returned =
            rw
              (
                k.given,
                gather,
                text,
                printed_fits 256 buf (buf_fits buf text),
                is_work,
                printed_fits 10 (decimal k.task.taskid) tid_fits,
                inserted,
              )
              rest.returned;
        holds = rw append_assoc at rest.holds;
        pairs = rw k.first (refl, text, rest.pairs);
        all = omega (arith, rest.all, k.fewer);
        same_size = rest.same_size ∙ next_size;
        is_noted = rw k.first (rest.is_noted ∙ same_wid);
        valid = rest.valid;
        none_left = rest.none_left;
        freed = omega (arith, rest.freed, k.freed, k.fewer);
      }
]

-- From a well-formed table with tasks to report, whose ids and work ids print in fewer than 10
-- characters and whose texts in fewer than 256, the list is made without a fault: it holds the id and
-- the text of each task that is complete, in the order of their slots, then of each that is impossible,
-- and then the pair `work_id` with the work id of the first of them. These tasks have left the table,
-- their slots are free, and the table stays well-formed.
pub report_list-Holds :
    (inet_ntoa : ℕ → Bytes) (ts : Tasks) (first : Task) (others : List Task)
    → IsValid ts
    → reported ts ≡ first ∷ others
    → All (FitsBuffers inet_ntoa) (reported ts)
    → (nvl : NvList) × (out : Tasks) × (ps : List NvPair) × (report_list inet_ntoa ts
        ≡ some (nvl, out))
      × Holds nvl (ps ++ record { name = codes "work_id"; value = decimal first.workid } ∷ [])
      × Pairs inet_ntoa (reported ts) ps
      × IsValid out
      × (ended out ≡ 0)
      × (free out ≡ free ts + ended ts)
unfolding report_list
report_list-Holds inet_ntoa ts first others h some_ended fit =
    let few : ended ts ≤ max_tasks = omega (arith, ended-le ts, h.size) in
    let size : (nv_list_init (max_tasks + 1)).size ≡ 16 = unfold nv_list_init in refl in
    let g =
      gather-Gathered inet_ntoa (max_tasks + 1) (nv_list_init (max_tasks + 1)) [] none ts h fit
        (nv_list_init-Holds (max_tasks + 1)) (omega (arith, size, few)) (omega (arith, few)) in
    let is_set : g.wid' ≡ some (decimal first.workid) = rw some_ended at g.is_noted in
    let (nvl, inserted, held, _) =
      nv_list_insert-Holds g.nvl g.more (codes "work_id") (decimal first.workid) g.holds
        (omega (arith, g.all, g.same_size, size, few)) in
    (
      nvl,
      g.out,
      g.more,
      rw (g.returned, is_set, inserted),
      held,
      g.pairs,
      g.valid,
      g.none_left,
      g.freed,
    )
