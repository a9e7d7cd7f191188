-- ===== src/Proto/Errors.antt =====
-- The errors of the servers: `proto_errno` of src/lib/proto.c and a table of their names.
use freenote_probe.Base.{
  ℕ, ◌&&◌, some, List, [], ◌∷◌, if◌then◌else◌, ◌≡◌, refl, ap, ◌∙◌, arith, length, ◌≤◌, Bool-cases,
  inl, inr, take, zero, suc, ◌↔◌, ◌⊎◌,
}
use freenote_probe.CString.{Bytes, codes, streq}
use freenote_probe.CString.Search.{streq_iff}
use freenote_probe.NvPair.{NvPair, NvList, nv_hash}
use freenote_probe.NvPair.Slots.{Holds}
use freenote_probe.NvPair.Lookup.{lookup, nv_hash-Holds}
use freenote_probe.Proto.{
  ProtoErr, pe_unrecognized, pe_pin_denied, pe_probeid_toosoon, pe_probeid_missing,
  pe_probeid_inactive, pe_probeid_notfound, pe_workid_missing, pe_workid_empty,
  pe_workid_incomplete, pe_workid_notfound, pe_workid_complete, pe_workid_dberror,
  pe_teamname_notfound, pe_teamname_inactive, probe_id_errno, work_id_errno, team_name_errno,
  errno_of, proto_errno, exits, react,
}

-- An error's variable and code.
pub record ErrorName : Type 0 where
  pub var : Bytes
  pub code : Bytes
  pub err : ProtoErr

abbrev pub error_names : List ErrorName
error_names =
    record { var = codes "pin_code"; code = codes "DENIED"; err = pe_pin_denied }
    ∷ record { var = codes "probe_id"; code = codes "TOOSOON"; err = pe_probeid_toosoon }
    ∷ record { var = codes "probe_id"; code = codes "MISSING"; err = pe_probeid_missing }
    ∷ record { var = codes "probe_id"; code = codes "INACTIVE"; err = pe_probeid_inactive }
    ∷ record { var = codes "probe_id"; code = codes "NOTFOUND"; err = pe_probeid_notfound }
    ∷ record { var = codes "work_id"; code = codes "MISSING"; err = pe_workid_missing }
    ∷ record { var = codes "work_id"; code = codes "EMPTY"; err = pe_workid_empty }
    ∷ record { var = codes "work_id"; code = codes "INCOMPLETE"; err = pe_workid_incomplete }
    ∷ record { var = codes "work_id"; code = codes "NOTFOUND"; err = pe_workid_notfound }
    ∷ record { var = codes "work_id"; code = codes "COMPLETE"; err = pe_workid_complete }
    ∷ record { var = codes "work_id"; code = codes "DBERROR"; err = pe_workid_dberror }
    ∷ record { var = codes "team_name"; code = codes "NOTFOUND"; err = pe_teamname_notfound }
    ∷ record { var = codes "team_name"; code = codes "INACTIVE"; err = pe_teamname_inactive }
    ∷ []

-- The first entry for a variable and a code, and an unrecognised error if there is none.
abbrev pub find_error : Bytes → Bytes → List ErrorName → ProtoErr
find_error var code [] = pe_unrecognized
find_error var code (n ∷ names) =
    if streq var n.var && streq code n.code then n.err else find_error var code names

-- The codes of `probe_id` are tested in another order than the table has them.
probe_id_errno_lem :
    (code : Bytes) → probe_id_errno code ≡ find_error (codes "probe_id") code error_names
unfolding probe_id_errno streq
probe_id_errno_lem code = elim (Bool-cases (streq code (codes "NOTFOUND"))) [
  | inl e ↦
      let same : code ≡ codes "NOTFOUND" = (streq_iff code (codes "NOTFOUND")).0 e in rw same refl
  | inr e ↦ rw e refl
]

-- `errno_of` finds the entry of the table.
errno_of_lem : (var code : Bytes) → errno_of var code ≡ find_error var code error_names
unfolding errno_of work_id_errno team_name_errno streq
errno_of_lem var code = elim (Bool-cases (streq var (codes "pin_code"))) [
  | inl e ↦
      let same : var ≡ codes "pin_code" = (streq_iff var (codes "pin_code")).0 e in rw same refl
  | inr pin ↦ elim (Bool-cases (streq var (codes "probe_id"))) [
    | inl e ↦
        let same : var ≡ codes "probe_id" = (streq_iff var (codes "probe_id")).0 e in
        rw same (probe_id_errno_lem code)
    | inr probe ↦ elim (Bool-cases (streq var (codes "work_id"))) [
      | inl e ↦
          let same : var ≡ codes "work_id" = (streq_iff var (codes "work_id")).0 e in rw same refl
      | inr work ↦ elim (Bool-cases (streq var (codes "team_name"))) [
        | inl e ↦
            let same : var ≡ codes "team_name" = (streq_iff var (codes "team_name")).0 e in
            rw same refl
        | inr team ↦ rw (pin, probe, work, team) refl
      ]
    ]
  ]
]

-- For a message whose list holds a variable and a code, `proto_errno` gives the error that the table
-- of names has for them, and an unrecognised error for a pair that is not in the table.
pub proto_errno-Holds :
    (nvl : NvList) (ps : List NvPair) (var code : Bytes)
    → Holds nvl ps
    → length ps ≤ nvl.size
    → lookup (codes "error_var.1") ps ≡ some var
    → lookup (codes "error_code.1") ps ≡ some code
    → proto_errno (some nvl) ≡ some (find_error var code error_names)
proto_errno-Holds nvl ps var code h small has_var has_code =
    let var_found : nv_hash nvl (codes "error_var.1") ≡ some var =
      nv_hash-Holds nvl ps (codes "error_var.1") h
      ∙ ap (lookup (codes "error_var.1")) (take_all ps nvl.size small)
      ∙ has_var in
    let code_found : nv_hash nvl (codes "error_code.1") ≡ some code =
      nv_hash-Holds nvl ps (codes "error_code.1") h
      ∙ ap (lookup (codes "error_code.1")) (take_all ps nvl.size small)
      ∙ has_code in
    unfold proto_errno in rw (var_found, code_found) (ap some (errno_of_lem var code))
  where
    take_all : (ps : List NvPair) (n : ℕ) → length ps ≤ n → take n ps ≡ ps
    take_all [] zero le = refl
    take_all [] (suc n) le = refl
    take_all (p ∷ ps) zero le = absurd (omega arith)
    take_all (p ∷ ps) (suc n) le = ap (◌∷◌ p) (take_all ps n (omega arith))

-- The probe ends itself for a denied pin code, an inactive probe, and a team that is unknown or
-- inactive, and for no other error.
pub react_exits_iff :
    (e : ProtoErr)
    → (react e ≡ exits) ↔ (
        (e ≡ pe_pin_denied)
        ⊎ (e ≡ pe_probeid_inactive)
        ⊎ (e ≡ pe_teamname_notfound)
        ⊎ (e ≡ pe_teamname_inactive))
unfolding react
react_exits_iff e = grind arith
