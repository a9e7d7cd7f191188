-- ===== src/Tests/Pairs.antt =====
-- src/lib/nv_pair.c on concrete lists.
use freenote_probe.Base.{◌≡◌, refl, none, some, [], ◌∷◌}
use freenote_probe.CString.{codes, strchr, scan_hex2, c_string, isspace}
use freenote_probe.CString.Search.{Lacks-strchr}
use freenote_probe.UrlCode.{urldecode_common, urldecode_dup, scan_tmp}
use freenote_probe.NvPair.{NvPair, NvList, nv_hash, nv_urlstring_to_list}
use freenote_probe.NvPair.Slots.{Holds}
use freenote_probe.NvPair.Print.{joined}
use freenote_probe.NvPair.Lookup.{lookup, nv_hash-Holds}
use freenote_probe.NvPair.Parse.{ReadsAs, nv_urlstring_to_list-joined}

abbrev sent : NvPair
sent = record { name = codes "a"; value = codes "1%202" }

abbrev read : NvPair
read = record { name = codes "a"; value = codes "1 2" }

abbrev other : NvPair
other = record { name = codes "b"; value = codes "" }

abbrev two : NvList
two = record { nvp = some read ∷ some other ∷ none ∷ []; size = 2; data_size = 5; last = 1 }

abbrev full : NvList
full = record { nvp = some read ∷ some other ∷ []; size = 1; data_size = 5; last = 1 }

two-Holds : Holds two (read ∷ other ∷ [])
two-Holds = record { free = 1; slots = refl; fits = refl; counted = refl; last_is = refl }

full-Holds : Holds full (read ∷ other ∷ [])
full-Holds = record { free = 0; slots = refl; fits = refl; counted = refl; last_is = refl }

sent-ReadsAs : ReadsAs 0 sent read
sent-ReadsAs = record {
  name_amp = Lacks-strchr sent.name b'&' (unfold strchr in refl);
  name_eq = Lacks-strchr sent.name b'=' (unfold strchr in refl);
  value_amp = Lacks-strchr sent.value b'&' (unfold strchr in refl);
  same_name = refl;
  decoded = unfold urldecode_dup urldecode_common scan_tmp scan_hex2 c_string isspace in refl;
}

other-ReadsAs : ReadsAs 0 other other
other-ReadsAs = record {
  name_amp = Lacks-strchr other.name b'&' (unfold strchr in refl);
  name_eq = Lacks-strchr other.name b'=' (unfold strchr in refl);
  value_amp = tt;
  same_name = refl;
  decoded = unfold urldecode_dup urldecode_common c_string in refl;
}

-- A pair with no `=` leads the code behind a null pointer.
bare-read : nv_urlstring_to_list (codes "ab") 0 ≡ none
unfolding nv_urlstring_to_list strchr
bare-read = refl

nv_urlstring_to_list-joined_example :
    (out : NvList) × (nv_urlstring_to_list (joined (sent ∷ other ∷ [])) 0 ≡ some out)
    × Holds out (read ∷ other ∷ [])
    × (out.size ≡ 2)
nv_urlstring_to_list-joined_example =
    nv_urlstring_to_list-joined 0 sent (other ∷ []) (read ∷ other ∷ [])
      (sent-ReadsAs, (other-ReadsAs, tt))

nv_hash-Holds_example : nv_hash two (codes "b") ≡ lookup (codes "b") (read ∷ other ∷ [])
nv_hash-Holds_example = nv_hash-Holds two (read ∷ other ∷ []) (codes "b") two-Holds
