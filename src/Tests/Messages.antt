-- ===== src/Tests/Messages.antt =====
-- src/lib/dispatch.c on a message with one task.
use freenote_probe.Base.{◌≡◌, refl, none, some, [], ◌∷◌}
use freenote_probe.CString.{codes}
use freenote_probe.NvPair.{NvPair, NvList, nv_hash, hash_slots}
use freenote_probe.Task.Types.{ok, fail, empty_table}
use freenote_probe.Dispatch.{take_work}

abbrev work_pair : NvPair
work_pair = record { name = codes "work_id"; value = codes "4" }

abbrev job_pair : NvPair
job_pair = record { name = codes "12"; value = codes "3,GET,u" }

abbrev nothing_sent : NvList
nothing_sent = record { nvp = none ∷ none ∷ []; size = 1; data_size = 0; last = 0 }

-- Without a `work_id` nothing is taken.
nothing-taken : take_work ok nothing_sent empty_table ≡ some (fail, empty_table)
unfolding take_work nv_hash hash_slots
nothing-taken = refl
