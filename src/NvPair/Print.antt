-- ===== src/NvPair/Print.antt =====
-- `nv_list_to_string` of src/lib/nv_pair.c on a list that holds pairs.
use freenote_probe.Base.{
  ℕ, suc, ◌+◌, ◌-◌, ◌*◌, ◌%◌, ◌≤◌, ◌<◌, some, List, [], ◌∷◌, ◌++◌, lt→ltb, length, take, ◌≡◌, refl,
  ap, arith, length-append,
}
use freenote_probe.CString.{Bytes}
use freenote_probe.NvPair.{NvPair, NvList, u32_mod, print_slots, nv_list_to_string}
use freenote_probe.NvPair.Slots.{total, filled, Holds}

-- `name=value`, followed by `rest`.
abbrev pub pair_text : NvPair → Bytes → Bytes
pair_text p rest = p.name ++ (b'=' ∷ (p.value ++ rest))

-- The pairs as a URL string: `&` between each two of them.
abbrev pub joined : List NvPair → Bytes
joined [] = []
joined (p ∷ []) = pair_text p []
joined (p ∷ q ∷ ps) = pair_text p (b'&' ∷ joined (q ∷ ps))

length-pair_text :
    (p : NvPair) (rest : Bytes)
    → length (pair_text p rest) ≡ length p.name + length p.value + 1 + length rest
length-pair_text p rest =
    omega
      (arith, length-append {0} p.name (b'=' ∷ (p.value ++ rest)), length-append {0} p.value rest)

length-joined :
    (p : NvPair) (ps : List NvPair)
    → length (joined (p ∷ ps)) + 1 ≡ total (p ∷ ps) + 2 * length (p ∷ ps)
length-joined p [] = omega (arith, length-pair_text p [])
length-joined p (q ∷ ps) =
    omega (arith, length-pair_text p (b'&' ∷ joined (q ∷ ps)), length-joined q ps)

take-filled : (ps : List NvPair) (free : ℕ) → take (length ps) (filled ps free) ≡ filled ps 0
take-filled [] free = refl
take-filled (p ∷ ps) free = ap (◌∷◌ (some p)) (take-filled ps free)

-- Behind a first pair each further pair follows its `&`.
print_slots-filled :
    (p : NvPair) (ps : List NvPair) (seen : ℕ)
    → print_slots (filled (p ∷ ps) 0) (suc seen) ≡ b'&' ∷ joined (p ∷ ps)
unfolding print_slots
print_slots-filled p [] seen = ground arith
print_slots-filled p (q ∷ ps) seen =
    let next : suc seen + 1 ≡ suc (suc seen) = omega arith in
    rw next (ground (arith, print_slots-filled q ps (suc seen)))

print_slots_first :
    (p : NvPair) (ps : List NvPair) → print_slots (filled (p ∷ ps) 0) 0 ≡ joined (p ∷ ps)
unfolding print_slots
print_slots_first p [] = refl
print_slots_first p (q ∷ ps) = rw (print_slots-filled q ps 0)

printed :
    (nvl : NvList) (ps : List NvPair)
    → Holds nvl ps
    → print_slots (take (nvl.last + 1) nvl.nvp) 0 ≡ joined ps
printed nvl [] h =
    let one : nvl.last + 1 ≡ 1 = omega (arith, h.last_is) in
    let more : h.free ≡ suc nvl.size = omega (arith, h.fits) in
    rw (one, h.slots, more) (unfold print_slots in refl)
printed nvl (p ∷ ps) h =
    let all : nvl.last + 1 ≡ length (p ∷ ps) = omega (arith, h.last_is) in
    rw (all, h.slots, take-filled (p ∷ ps) h.free) (print_slots_first p ps)

length-joined_le : (ps : List NvPair) → length (joined ps) ≤ total ps + 2 * length ps - 1
length-joined_le [] = omega arith
length-joined_le (p ∷ ps) = omega (arith, length-joined p ps)

-- `nv_list_to_string` returns the pairs joined by `&`, each as `name=value`, and does not leave its
-- buffer, for a list with no more pairs than it was made for and a buffer size that fits 32 bits.
pub nv_list_to_string-Holds :
    (nvl : NvList) (ps : List NvPair)
    → Holds nvl ps
    → 0 < nvl.size
    → length ps ≤ nvl.size
    → total ps + nvl.size * 3 < u32_mod
    → nv_list_to_string nvl ≡ some (joined ps)
unfolding nv_list_to_string
nv_list_to_string-Holds nvl ps h pos room fits =
    let inside : length (joined ps) < (nvl.data_size + nvl.size * 3 % u32_mod) % u32_mod =
      omega (arith, length-joined_le ps, h.counted) in
    rw (printed nvl ps h, lt→ltb _ _ inside)
