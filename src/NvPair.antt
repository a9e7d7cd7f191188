-- ===== src/NvPair.antt =====
-- src/lib/nv_pair.c: lists of name=value pairs in an array of slots. A slot is an `Option`, the
-- array has one slot more than `size`, and a read outside it is a fault, `none`.
pub mod Slots
pub mod Print
pub mod Parse
pub mod Lookup
use freenote_probe.Base.{
  ℕ, zero, suc, ◌+◌, ◌-◌, ◌*◌, ◌%◌, Bool, true, false, ◌&&◌, not, Option, none, some, List, [], ◌∷◌,
  ◌++◌, map, ltb, ◌==◌, if◌then◌else◌, ◌>>=◌, length, set, take, drop, replicate, count,
}
use freenote_probe.CString.{Bytes, streq, strchr}
use freenote_probe.UrlCode.{urldecode_dup}

abbrev pub u32_mod : ℕ
u32_mod = 4294967296

pub record NvPair : Type 0 where
  pub name : Bytes
  pub value : Bytes

pub record NvList : Type 0 where
  pub nvp : List (Option NvPair)
  pub size : ℕ
  pub data_size : ℕ
  pub last : ℕ

-- `nv_pair_init`: `size + 1` empty slots.
nv_pair_init : ℕ → List (Option NvPair)
nv_pair_init size = replicate (suc size) none

unfoldable pub nv_list_init : ℕ → NvList
unfolding nv_pair_init
nv_list_init size = record { nvp = nv_pair_init size; size = size; data_size = 0; last = 0 }

-- The loop that steps over used slots, from slot `i` on.
unfoldable pub next_free : List (Option NvPair) → ℕ → Option ℕ
next_free [] i = none
next_free (none ∷ xs) zero = some 0
next_free (some p ∷ xs) zero = next_free xs zero >>= λ j. some (suc j)
next_free (x ∷ xs) (suc i) = next_free xs i >>= λ j. some (suc j)

-- The new list and the slot that was taken.
unfoldable pub nv_list_insert : NvList → Bytes → Bytes → ℕ → Option (NvList × ℕ)
nv_list_insert nvl name value i =
    let from = if i == 0 && not (nvl.last == 0) then nvl.last + 1 else i in
    next_free nvl.nvp from >>= λ j. some (
      record nvl {
        nvp = set nvl.nvp j (some (record { name = name; value = value }));
        data_size = ((nvl.data_size + length name) % u32_mod + length value) % u32_mod;
        last = j;
      },
      j,
    )

-- The loop of `nv_list_to_string` over the slots up to `last`, with what it appends.
unfoldable pub print_slots : List (Option NvPair) → ℕ → Bytes
print_slots [] seen = []
print_slots (none ∷ xs) seen = print_slots xs seen
print_slots (some p ∷ xs) seen =
    (if seen == 0 then [] else b'&' ∷ [])
    ++ (p.name ++ (b'=' ∷ (p.value ++ print_slots xs (seen + 1))))

-- The string, if it fits with its terminator into the buffer that is allocated for it.
unfoldable pub nv_list_to_string : NvList → Option Bytes
unfolding print_slots
nv_list_to_string nvl =
    let ret = print_slots (take (nvl.last + 1) nvl.nvp) 0 in
    if ltb (length ret) ((nvl.data_size + nvl.size * 3 % u32_mod) % u32_mod) then some ret else none

-- What follows the pair at `stmp`: the text from its `&` on, or the terminator.
unfoldable pub pair_end : Bytes → Bytes
pair_end stmp = elim (strchr stmp b'&') [ none ↦ [] | some tmp ↦ tmp ]

-- One round of `nv_urlstring_to_list`, for the pair at `stmp` that ends at `tmp`. Without a `=` the
-- pointer `v` is null, and the code reads behind it.
unfoldable pub insert_pair : NvList → Bytes → Bytes → ℕ → Option NvList
insert_pair nvl stmp tmp unset =
    let nvplen = length stmp - length tmp in
    strchr (take nvplen stmp) b'=' >>= λ eq.
    (let v = drop 1 eq in
      urldecode_dup v unset >>= λ ev.
      (nv_list_insert nvl (take (nvplen - length v - 1) stmp) ev 0 >>= λ r. some r.0))

-- The loop over the pairs. Each round takes at least one byte, so the length of the text is enough
-- fuel; `none` is also what a fault in a round gives.
unfoldable pub urlstring_loop : ℕ → NvList → Bytes → ℕ → Option NvList
unfolding pair_end insert_pair
urlstring_loop fuel nvl [] unset = some nvl
urlstring_loop zero nvl (c ∷ s) unset = none
urlstring_loop (suc fuel) nvl (c ∷ s) unset =
    insert_pair nvl (c ∷ s) (pair_end (c ∷ s)) unset >>= λ next. elim (pair_end (c ∷ s)) [
      | [] ↦ some next
      | _ ∷ rest ↦ urlstring_loop fuel next rest unset
    ]

-- `unset` is what the uninitialised local of `urldecode_dup` holds. The count of pairs looks at
-- every byte but the first.
unfoldable pub nv_urlstring_to_list : Bytes → ℕ → Option NvList
unfolding urlstring_loop nv_list_init nv_list_insert next_free urldecode_dup
nv_urlstring_to_list str unset =
    urlstring_loop (length str) (nv_list_init (1 + count (λ c. c == b'&') (drop 1 str))) str unset

unfoldable pub hash_slots : List (Option NvPair) → Bytes → Option Bytes
hash_slots [] grep = none
hash_slots (none ∷ xs) grep = hash_slots xs grep
hash_slots (some p ∷ xs) grep = if streq grep p.name then some p.value else hash_slots xs grep

-- The value of the first pair of that name in the slots below `size`.
unfoldable pub nv_hash : NvList → Bytes → Option Bytes
unfolding hash_slots
nv_hash nvl grep = hash_slots (take nvl.size nvl.nvp) grep
