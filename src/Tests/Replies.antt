-- ===== src/Tests/Replies.antt =====
-- src/lib/proto.c on a concrete error message.
use freenote_probe.Base.{◌≡◌, refl, none, some, [], ◌∷◌, arith}
use freenote_probe.Base.Int.{pos}
use freenote_probe.CString.{codes, streq}
use freenote_probe.NvPair.{NvPair, NvList, nv_hash, hash_slots}
use freenote_probe.NvPair.Slots.{Holds}
use freenote_probe.Proto.{
  pe_workid_complete, proto_errno, errno_of, work_id_errno, returns, no_result, react, proto_error,
}
use freenote_probe.Proto.Errors.{error_names, find_error, proto_errno-Holds}

abbrev var_pair : NvPair
var_pair = record { name = codes "error_var.1"; value = codes "work_id" }

abbrev code_pair : NvPair
code_pair = record { name = codes "error_code.1"; value = codes "EMPTY" }

abbrev reply : NvList
reply = record {
  nvp = some var_pair ∷ some code_pair ∷ none ∷ [];
  size = 2;
  data_size = 35;
  last = 1;
}

reply-Holds : Holds reply (var_pair ∷ code_pair ∷ [])
reply-Holds = record { free = 1; slots = refl; fits = refl; counted = refl; last_is = refl }

-- For a work packet that was empty `proto_error` reaches its end with no result.
empty-reaction : proto_error (some reply) ≡ some no_result
unfolding proto_error react nv_hash hash_slots streq errno_of work_id_errno
empty-reaction = refl

-- A message with no variable leads to a null pointer.
bare-errno :
    proto_errno (some (record { nvp = none ∷ none ∷ []; size = 1; data_size = 0; last = 0 })) ≡ none
unfolding proto_errno nv_hash hash_slots
bare-errno = refl

-- A packet that was complete already is answered with 0.
complete-reaction : react pe_workid_complete ≡ returns (pos 0)
unfolding react
complete-reaction = refl

proto_errno-Holds_example :
    proto_errno (some reply) ≡ some (find_error (codes "work_id") (codes "EMPTY") error_names)
proto_errno-Holds_example =
    proto_errno-Holds reply (var_pair ∷ code_pair ∷ []) (codes "work_id") (codes "EMPTY")
      reply-Holds (omega arith) (unfold streq in refl) (unfold streq in refl)
