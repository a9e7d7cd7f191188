-- ===== src/Dns/Slots.antt =====
-- src/net-modules/dns.c: the search of the cache finds the first slot with the name.
use mathlib.Core.Option
use freenote_probe.Base.{
  next_none, next_some, ℕ, zero, suc, ◌<◌, Bool, true, false, ◌&&◌, Option, none, some, List, [],
  ◌∷◌, ◌≡◌, ◌≢◌, refl, sym, ap, ◌∙◌, arith, get_elem?, set, length, Bool-cases, Option-cases, inl,
  inr,
}
use freenote_probe.CString.{Bytes}
use freenote_probe.CString.Search.{streq_iff}
use freenote_probe.Dns.{DnsCentry, named, same_name, cache_itest, is_cached}

-- No slot has the name.
abbrev pub Absent : Bytes → List DnsCentry → Type 0
Absent name [] = Unit
Absent name (i ∷ rest) = (i.name ≢ some name) × Absent name rest

-- The test that `cache_itest` makes of one slot.
abbrev pub hits : Bytes → DnsCentry → Bool
hits name i = named i && same_name i name

hits-name : (i : DnsCentry) (name : Bytes) → hits name i ≡ true → i.name ≡ some name
unfolding same_name
hits-name i name h = elim (Option-cases i.name) [
  | inl e ↦ ground (arith, e, h)
  | inr (n, e) ↦ ground (arith, e, h, streq_iff name n)
]

name-hits : (i : DnsCentry) (name : Bytes) → i.name ≡ some name → hits name i ≡ true
unfolding same_name
name-hits i name e =
    rw (ap {B = Bool} (λ (n : Option Bytes). elim n [ none ↦ false | some m ↦ true ]) e, e)
      (ground (arith, streq_iff name name))

no_hit : (i : DnsCentry) (name : Bytes) → i.name ≢ some name → hits name i ≡ false
no_hit i name h = elim (Bool-cases (hits name i)) [
  | inl t ↦ absurd (h (hits-name i name t))
  | inr t ↦ t
]

is_cached_hit :
    (i : DnsCentry) (es : List DnsCentry) (name : Bytes)
    → hits name i ≡ true
    → is_cached (i ∷ es) name ≡ some 0
unfolding is_cached cache_itest
is_cached_hit i es name t = rw t

is_cached_skip :
    (i : DnsCentry) (es : List DnsCentry) (name : Bytes)
    → hits name i ≡ false
    → is_cached (i ∷ es) name ≡ Option.map suc (is_cached es name)
unfolding is_cached cache_itest
is_cached_skip i es name t = rw t

pub is_cached-none :
    (es : List DnsCentry) (name : Bytes) → is_cached es name ≡ none → Absent name es
is_cached-none [] name h = tt
is_cached-none (i ∷ es) name h = elim (Bool-cases (hits name i)) [
  | inl t ↦ absurd (let e : some 0 ≡ none = sym (is_cached_hit i es name t) ∙ h in cc)
  | inr t ↦ (
    λ e. ground (arith, t, name-hits i name e),
    is_cached-none es name (next_none (is_cached es name) (sym (is_cached_skip i es name t) ∙ h)),
  )
]

-- The slot that is found has the name.
pub is_cached-some :
    (es : List DnsCentry) (name : Bytes) {n : ℕ}
    → is_cached es name ≡ some n
    → (i : DnsCentry) × (get_elem? es n ≡ some i) × (i.name ≡ some name)
is_cached-some [] name h = absurd (unfold is_cached cache_itest in cc)
is_cached-some (i ∷ es) name {n} h = elim (Bool-cases (hits name i)) [
  | inl t ↦
      let z : 0 ≡ n = ground (arith, h, is_cached_hit i es name t) in
      rw (← z) (i, refl, hits-name i name t)
  | inr t ↦
      let (m, found, z) = next_some (is_cached es name) (sym (is_cached_skip i es name t) ∙ h) in
      rw (← z) (is_cached-some es name found)
]

-- A name that is written over a slot of a cache that lacks it is found there.
pub is_cached-set :
    (es : List DnsCentry) (n : ℕ) (name : Bytes) (addr : ℕ)
    → Absent name es
    → n < length es
    → is_cached (set es n (record { name = some name; addr = addr })) name ≡ some n
is_cached-set [] n name addr h lt = absurd (omega arith)
is_cached-set (i ∷ es) zero name addr (hi, h) lt =
    is_cached_hit _ es name (name-hits (record { name = some name; addr = addr }) name refl)
is_cached-set (i ∷ es) (suc n) name addr (hi, h) lt =
    is_cached_skip i _ name (no_hit i name hi)
    ∙ ap (Option.map suc) (is_cached-set es n name addr h (omega arith))
