-- ===== src/NvPair/Lookup.antt =====
-- `nv_hash` of src/lib/nv_pair.c as a lookup in a list of pairs.
use freenote_probe.Base.{
  ℕ, zero, suc, Option, none, some, List, [], ◌∷◌, if◌then◌else◌, take, ◌≡◌, refl,
}
use freenote_probe.CString.{Bytes, streq}
use freenote_probe.NvPair.{NvPair, NvList, hash_slots, nv_hash}
use freenote_probe.NvPair.Slots.{filled, Holds}

abbrev pub lookup : Bytes → List NvPair → Option Bytes
lookup k [] = none
lookup k (p ∷ ps) = if streq k p.name then some p.value else lookup k ps

hash_slots_empty : (n free : ℕ) (k : Bytes) → hash_slots (take n (filled [] free)) k ≡ none
unfolding hash_slots
hash_slots_empty zero free k = refl
hash_slots_empty (suc n) zero k = refl
hash_slots_empty (suc n) (suc free) k = hash_slots_empty n free k

hash_slots-take :
    (ps : List NvPair) (n free : ℕ) (k : Bytes)
    → hash_slots (take n (filled ps free)) k ≡ lookup k (take n ps)
unfolding hash_slots
hash_slots-take [] zero free k = hash_slots_empty zero free k
hash_slots-take [] (suc n) free k = hash_slots_empty (suc n) free k
hash_slots-take (p ∷ ps) zero free k = refl
hash_slots-take (p ∷ ps) (suc n) free k = rw (hash_slots-take ps n free k)

-- In a list that holds `ps`, `nv_hash` gives the value of the first of the first `size` pairs that
-- has the name, and nothing if none of them has it.
pub nv_hash-Holds :
    (nvl : NvList) (ps : List NvPair) (k : Bytes)
    → Holds nvl ps
    → nv_hash nvl k ≡ lookup k (take nvl.size ps)
unfolding nv_hash
nv_hash-Holds nvl ps k h = rw h.slots (hash_slots-take ps nvl.size h.free k)
