-- ===== src/NvPair/Parse.antt =====
-- `nv_urlstring_to_list` of src/lib/nv_pair.c on URL strings of pairs.
use freenote_probe.Base.{
  ℕ, zero, suc, ◌+◌, ◌-◌, ◌≤◌, ◌<◌, some, List, [], ◌∷◌, ◌++◌, length, take, drop, count, ◌≡◌, ◌≢◌,
  refl, ap, sym, ◌∙◌, arith, All-append, append_assoc, append-nil, length-append, ◌==◌, ◌>>=◌,
  take-length,
}
use freenote_probe.CString.{Bytes}
use freenote_probe.CString.Search.{Lacks, strchr-append, strchr-Lacks, take-sub_length}
use freenote_probe.UrlCode.{urldecode_dup}
use freenote_probe.NvPair.{
  NvPair, NvList, nv_list_init, nv_list_insert, pair_end, insert_pair, urlstring_loop,
  nv_urlstring_to_list,
}
use freenote_probe.NvPair.Slots.{Holds, nv_list_init-Holds, nv_list_insert-Holds}
use freenote_probe.NvPair.Print.{pair_text, joined}

-- A pair that can stand in a URL string, and what is read from it: neither part holds `&`, the name
-- holds no `=`, and the value is decoded.
pub record ReadsAs (unset : ℕ) (p q : NvPair) : Type 0 where
  pub name_amp : Lacks b'&' p.name
  pub name_eq : Lacks b'=' p.name
  pub value_amp : Lacks b'&' p.value
  pub same_name : q.name ≡ p.name
  pub decoded : urldecode_dup p.value unset ≡ some q.value

abbrev pub AllReadAs : ℕ → List NvPair → List NvPair → Type 0
AllReadAs unset [] [] = Unit
AllReadAs unset [] (q ∷ qs) = ⊥
AllReadAs unset (p ∷ ps) [] = ⊥
AllReadAs unset (p ∷ ps) (q ∷ qs) = ReadsAs unset p q × AllReadAs unset ps qs

-- The text of one pair, with nothing behind it.
abbrev own : NvPair → Bytes
own p = p.name ++ (b'=' ∷ p.value)

pair_text-own : (p : NvPair) (rest : Bytes) → pair_text p rest ≡ own p ++ rest
pair_text-own p rest = sym (append_assoc p.name (b'=' ∷ p.value) rest)

module _ (unset : ℕ) (p q : NvPair) (r : ReadsAs unset p q) where
  own-Lacks : Lacks b'&' (own p)
  own-Lacks = All-append _ p.name (b'=' ∷ p.value) r.name_amp (omega arith, r.value_amp)

  pair_end_last : pair_end (pair_text p []) ≡ []
  pair_end_last =
      rw (pair_text-own p [], append-nil)
        (unfold pair_end in rw (strchr-Lacks (own p) b'&' own-Lacks, pair_end))

  pair_end_next : (rest : Bytes) → pair_end (pair_text p (b'&' ∷ rest)) ≡ b'&' ∷ rest
  pair_end_next rest =
      rw (pair_text-own p (b'&' ∷ rest))
        (unfold pair_end in rw (strchr-append (own p) rest b'&' own-Lacks, pair_end))

  insert_pair-own :
      (nvl : NvList) (rest : Bytes)
      → insert_pair nvl (pair_text p rest) rest unset
        ≡ (nv_list_insert nvl q.name q.value 0 >>= λ t. some t.0)
  insert_pair-own nvl rest = rw (pair_text-own p rest) (
      unfold insert_pair in
      rw (
        take-sub_length (own p) rest,
        strchr-append p.name p.value b'=' r.name_eq,
        r.decoded,
        name_part,
        r.same_name,
      ))
    where
      name_length : length (own p ++ rest) - length rest - length p.value - 1 ≡ length p.name
      name_length =
          omega (arith, length-append {0} (own p) rest, length-append {0} p.name (b'=' ∷ p.value))

      name_part :
          take (length (own p ++ rest) - length rest - length p.value - 1) (own p ++ rest) ≡ p.name
      name_part =
          rw (name_length, ← (pair_text-own p rest)) (take-length p.name (b'=' ∷ (p.value ++ rest)))

lt-length-pair_text : (p : NvPair) (rest : Bytes) → length rest < length (pair_text p rest)
lt-length-pair_text p rest =
    omega
      (arith, length-append {0} p.name (b'=' ∷ (p.value ++ rest)), length-append {0} p.value rest)

pair_text-ne-nil : (p : NvPair) (rest : Bytes) → pair_text p rest ≢ []
pair_text-ne-nil p rest e = omega (arith, lt-length-pair_text p rest, ap (length {0}) e)

-- A round of the loop at a nonempty text.
urlstring_loop_round :
    (fuel : ℕ) (nvl : NvList) (stmp : Bytes) (unset : ℕ)
    → stmp ≢ []
    → urlstring_loop (suc fuel) nvl stmp unset ≡ (
        insert_pair nvl stmp (pair_end stmp) unset >>= λ next. elim (pair_end stmp) [
          | [] ↦ some next
          | _ ∷ rest ↦ urlstring_loop fuel next rest unset
        ])
unfolding urlstring_loop
urlstring_loop_round fuel nvl [] unset ne = absurd (ne refl)
urlstring_loop_round fuel nvl (c ∷ s) unset ne = refl

-- The loop appends the pairs that it reads to those that the list holds.
urlstring_loop-Holds :
    (unset : ℕ) (ps qs : List NvPair) (fuel : ℕ) (nvl : NvList) (done : List NvPair)
    → AllReadAs unset ps qs
    → Holds nvl done
    → length done + length ps ≤ nvl.size
    → length (joined ps) ≤ fuel
    → (out : NvList) × (urlstring_loop fuel nvl (joined ps) unset ≡ some out)
      × Holds out (done ++ qs)
      × (out.size ≡ nvl.size)
urlstring_loop-Holds unset [] [] fuel nvl done rs h room enough =
    (nvl, finished fuel, rw append-nil h, refl)
  where
    finished : (f : ℕ) → urlstring_loop f nvl [] unset ≡ some nvl
    finished zero = unfold urlstring_loop in refl
    finished (suc f) = unfold urlstring_loop in refl
urlstring_loop-Holds unset [] (q ∷ qs) fuel nvl done rs h room enough = absurd rs
urlstring_loop-Holds unset (p ∷ ps) [] fuel nvl done rs h room enough = absurd rs
urlstring_loop-Holds unset (p ∷ []) (q ∷ []) zero nvl done rs h room enough =
    absurd (omega (arith, lt-length-pair_text p []))
urlstring_loop-Holds unset (p ∷ []) (q ∷ []) (suc fuel) nvl done (r, rs) h room enough =
    let (next, inserted, holds, same) =
      nv_list_insert-Holds nvl done q.name q.value h (omega arith) in
    (
      next,
      urlstring_loop_round fuel nvl (pair_text p []) unset (pair_text-ne-nil p [])
          ∙ rw (pair_end_last unset p q r, insert_pair-own unset p q r nvl [], inserted),
      holds,
      same,
    )
urlstring_loop-Holds unset (p ∷ []) (q ∷ q' ∷ qs) fuel nvl done (r, rs) h room enough = absurd rs
urlstring_loop-Holds unset (p ∷ p' ∷ ps) (q ∷ qs) zero nvl done rs h room enough =
    absurd (omega (arith, lt-length-pair_text p (b'&' ∷ joined (p' ∷ ps))))
urlstring_loop-Holds unset (p ∷ p' ∷ ps) (q ∷ qs) (suc fuel) nvl done (r, rs) h room enough =
    let (next, inserted, holds, same) =
      nv_list_insert-Holds nvl done q.name q.value h (omega arith) in
    let tail = joined (p' ∷ ps) in
    let (out, looped, holds', same') =
      urlstring_loop-Holds unset (p' ∷ ps) qs fuel next (done ++ q ∷ []) rs holds
        (omega (arith, length-append {0} done (q ∷ []), same))
        (omega (arith, lt-length-pair_text p (b'&' ∷ tail))) in
    (
      out,
      urlstring_loop_round fuel nvl (pair_text p (b'&' ∷ tail)) unset
            (pair_text-ne-nil p (b'&' ∷ tail))
          ∙ rw
              (
                pair_end_next unset p q r tail,
                insert_pair-own unset p q r nvl (b'&' ∷ tail),
                inserted,
              )
              looped,
      rw append_assoc at holds',
      same' ∙ same,
    )

abbrev amps : Bytes → ℕ
amps s = count (λ c. c == b'&') s

amps-append : (xs ys : Bytes) → amps (xs ++ ys) ≡ amps xs + amps ys
amps-append [] ys = omega arith
amps-append (x ∷ xs) ys = omega (arith, amps-append xs ys)

amps-Lacks : (xs : Bytes) → Lacks b'&' xs → amps xs ≡ 0
amps-Lacks [] h = refl
amps-Lacks (x ∷ xs) (hx, hs) = ground (arith, amps-Lacks xs hs)

-- What stands behind the first pair.
abbrev behind : List NvPair → Bytes
behind [] = []
behind (p ∷ ps) = b'&' ∷ joined (p ∷ ps)

joined-behind : (p : NvPair) (ps : List NvPair) → joined (p ∷ ps) ≡ pair_text p (behind ps)
joined-behind p [] = refl
joined-behind p (q ∷ ps) = refl

amps-pair_text :
    {unset : ℕ} (p q : NvPair) (rest : Bytes)
    → ReadsAs unset p q
    → amps (pair_text p rest) ≡ amps rest
amps-pair_text p q rest r = omega (
  arith,
  amps-append p.name (b'=' ∷ (p.value ++ rest)),
  amps-append p.value rest,
  amps-Lacks p.name r.name_amp,
  amps-Lacks p.value r.value_amp,
)

-- The first byte of the text is no `&`, so the count that passes it over is the count of all.
amps-drop :
    (n rest : Bytes) → Lacks b'&' n → amps (drop 1 (n ++ (b'=' ∷ rest))) ≡ amps (n ++ (b'=' ∷ rest))
amps-drop [] rest h = omega arith
amps-drop (c ∷ n) rest (hc, hn) = ground arith

amps-joined :
    (unset : ℕ) (p : NvPair) (ps qs : List NvPair)
    → AllReadAs unset (p ∷ ps) qs
    → amps (joined (p ∷ ps)) ≡ length ps
amps-joined unset p ps [] r = absurd r
amps-joined unset p [] (q ∷ qs) (r, rs) = amps-pair_text p q [] r
amps-joined unset p (p' ∷ ps) (q ∷ qs) (r, rs) =
    amps-pair_text p q (behind (p' ∷ ps)) r ∙ omega (arith, amps-joined unset p' ps qs rs)

amps-drop-joined :
    (unset : ℕ) (p : NvPair) (ps qs : List NvPair)
    → AllReadAs unset (p ∷ ps) qs
    → amps (drop 1 (joined (p ∷ ps))) ≡ length ps
amps-drop-joined unset p ps [] r = absurd r
amps-drop-joined unset p ps (q ∷ qs) r =
    rw (joined-behind p ps) (amps-drop p.name (p.value ++ behind ps) r.0.name_amp)
    ∙ rw (joined-behind p ps) at (amps-joined unset p ps (q ∷ qs) r)

nv_list_init-size : (size : ℕ) → (nv_list_init size).size ≡ size
unfolding nv_list_init
nv_list_init-size size = refl

-- A URL string of pairs is read into a list that holds them in order, with the values decoded and
-- as many slots as pairs: the loop ends, and no round faults.
pub nv_urlstring_to_list-joined :
    (unset : ℕ) (p : NvPair) (ps qs : List NvPair)
    → AllReadAs unset (p ∷ ps) qs
    → (out : NvList) × (nv_urlstring_to_list (joined (p ∷ ps)) unset ≡ some out)
      × Holds out qs
      × (out.size ≡ length (p ∷ ps))
nv_urlstring_to_list-joined unset p ps qs r =
    let size = 1 + amps (drop 1 (joined (p ∷ ps))) in
    let slots : size ≡ length (p ∷ ps) = omega (arith, amps-drop-joined unset p ps qs r) in
    let (out, looped, holds, same) =
      urlstring_loop-Holds unset (p ∷ ps) qs (length (joined (p ∷ ps))) (nv_list_init size) [] r
        (nv_list_init-Holds size) (omega (arith, slots, nv_list_init-size size)) (omega arith) in
    (out, unfold nv_urlstring_to_list in looped, holds, same ∙ nv_list_init-size size ∙ slots)
