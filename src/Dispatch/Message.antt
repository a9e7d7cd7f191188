-- ===== src/Dispatch/Message.antt =====
-- src/lib/dispatch.c with src/lib/nv_pair.c: from the text of the dispatch server's message to the
-- tasks in the table.
use freenote_probe.Base.{◌≡◌, ◌≢◌}
use freenote_probe.Base.Int.{pos}
use freenote_probe.CString.{codes, atoi}
use freenote_probe.NvPair.{NvPair}

-- The pair that names the work.
pub record IsWork (p : NvPair) : Type 0 where
  pub name_is : p.name ≡ codes "work_id"
  pub id_ok : atoi p.value ≢ pos 0
