-- ===== src/NvPair/Slots.antt =====
-- src/lib/nv_pair.c: the pairs that an array of slots holds, and `nv_list_insert`.
use freenote_probe.Base.{
  ℕ, zero, suc, ◌+◌, ◌-◌, ◌%◌, ◌≤◌, ◌&&◌, not, Option, none, some, List, [], ◌∷◌, ◌++◌, ◌==◌,
  if◌then◌else◌, length, set, replicate, ◌≡◌, refl, ap, ◌∙◌, arith, length-append,
}
use freenote_probe.CString.{Bytes}
use freenote_probe.NvPair.{NvPair, NvList, u32_mod, nv_list_init, next_free, nv_list_insert}

-- The bytes of all names and values.
abbrev pub total : List NvPair → ℕ
total [] = 0
total (p ∷ ps) = length p.name + length p.value + total ps

abbrev pub filled : List NvPair → ℕ → List (Option NvPair)
filled [] free = replicate free none
filled (p ∷ ps) free = some p ∷ filled ps free

-- The list `nvl` holds the pairs `ps`, in order, in its first slots.
pub record Holds (nvl : NvList) (ps : List NvPair) : Type 0 where
  pub free : ℕ
  pub slots : nvl.nvp ≡ filled ps free
  pub fits : length ps + free ≡ suc nvl.size
  pub counted : nvl.data_size ≡ total ps % u32_mod
  pub last_is : nvl.last ≡ length ps - 1

-- A new list holds nothing.
pub nv_list_init-Holds : (size : ℕ) → Holds (nv_list_init size) []
unfolding nv_list_init
nv_list_init-Holds size = record {
  free = suc size;
  slots = refl;
  fits = omega arith;
  counted = refl;
  last_is = omega arith;
}

next_free-filled :
    (ps : List NvPair) (i free : ℕ)
    → i ≤ length ps
    → next_free (filled ps (suc free)) i ≡ some (length ps)
unfolding next_free
next_free-filled [] zero free h = refl
next_free-filled [] (suc i) free h = absurd (omega arith)
next_free-filled (p ∷ ps) zero free h = rw (next_free-filled ps 0 free (omega arith))
next_free-filled (p ∷ ps) (suc i) free h = rw (next_free-filled ps i free (omega arith))

next_free_full : (ps : List NvPair) (i : ℕ) → next_free (filled ps 0) i ≡ none
unfolding next_free
next_free_full [] i = refl
next_free_full (p ∷ ps) zero = rw (next_free_full ps zero)
next_free_full (p ∷ ps) (suc i) = rw (next_free_full ps i)

set-filled :
    (ps : List NvPair) (p : NvPair) (free : ℕ)
    → set (filled ps (suc free)) (length ps) (some p) ≡ filled (ps ++ p ∷ []) free
set-filled [] p free = refl
set-filled (q ∷ ps) p free = rw (set-filled ps p free)

total-append :
    (ps : List NvPair) (p : NvPair)
    → total (ps ++ p ∷ []) ≡ total ps + length p.name + length p.value
total-append [] p = omega arith
total-append (q ∷ ps) p = omega (arith, total-append ps p)

-- Appending to a list with a free slot takes the first free slot and keeps the pairs before it.
pub nv_list_insert-Holds :
    (nvl : NvList) (ps : List NvPair) (name value : Bytes)
    → Holds nvl ps
    → length ps ≤ nvl.size
    → (next : NvList) × (nv_list_insert nvl name value 0 ≡ some (next, length ps))
      × Holds next (ps ++ record { name = name; value = value } ∷ [])
      × (next.size ≡ nvl.size)
nv_list_insert-Holds nvl ps name value h room = (
  next,
  inserted,
  record { free = free; slots = slots; fits = fits; counted = counted; last_is = last_is },
  refl,
)
  where
    pair : NvPair
    pair = record { name = name; value = value }

    free : ℕ
    free = h.free - 1

    next : NvList
    next = record nvl {
      nvp = set nvl.nvp (length ps) (some pair);
      data_size = ((nvl.data_size + length name) % u32_mod + length value) % u32_mod;
      last = length ps;
    }

    before : nvl.nvp ≡ filled ps (suc free)
    before = h.slots ∙ ap (filled ps) (omega (arith, h.fits))

    found :
        next_free nvl.nvp (if 0 == 0 && not (nvl.last == 0) then nvl.last + 1 else 0)
        ≡ some (length ps)
    found = rw before (next_free-filled ps _ free (ground (arith, h.last_is)))

    inserted : nv_list_insert nvl name value 0 ≡ some (next, length ps)
    inserted = unfold nv_list_insert in rw found

    slots : next.nvp ≡ filled (ps ++ pair ∷ []) free
    slots = rw before (set-filled ps pair free)

    fits : length (ps ++ pair ∷ []) + free ≡ suc nvl.size
    fits = omega (arith, length-append {0} ps (pair ∷ []), h.fits)

    counted : next.data_size ≡ total (ps ++ pair ∷ []) % u32_mod
    counted = omega (arith, h.counted, total-append ps pair)

    last_is : length ps ≡ length (ps ++ pair ∷ []) - 1
    last_is = omega (arith, length-append {0} ps (pair ∷ []))

-- With every slot in use the search for a free one leaves the array, from any start.
pub nv_list_insert_full :
    (nvl : NvList) (ps : List NvPair) (name value : Bytes) (i : ℕ)
    → Holds nvl ps
    → length ps ≡ suc nvl.size
    → nv_list_insert nvl name value i ≡ none
unfolding nv_list_insert
nv_list_insert_full nvl ps name value i h full =
    let e : h.free ≡ 0 = omega (arith, h.fits) in rw (h.slots, e, next_free_full)
