-- ===== src/Cookie/Parse.antt =====
-- The loop of `parse_cstring` in src/lib/cookie.c, and what it leaves in the list.
use freenote_probe.Base.{
  ℕ, zero, suc, ◌+◌, ◌-◌, ◌≤◌, ◌<◌, true, Option, none, some, List, ltb, ltb→lt, ◌==◌, ◌≡◌, ◌≢◌,
  refl, ap, sym, ◌∙◌, arith, length, get_elem?, set, get_elem?-set_self, get_elem?-set_ne,
  length-set, lt_of_get_elem?, Bool-cases, Option-cases, inl, inr, >>=-eq-some, ==_iff,
}
use freenote_probe.CString.{Bytes, codes, strchr, strstr, advance}
use freenote_probe.CString.Search.{strstr-length, advance-length}
use freenote_probe.Cookie.{
  Cookie, cookie_magic, copy_text, copy_property, extract_cookie, next_header, store, read_slot,
  parse_loop, parse_cstring, valid_cookie,
}

-- A cookie that was read is valid.
extract_cookie-valid_cookie :
    (c : Cookie) (cs : Bytes) {c' : Cookie}
    → extract_cookie c cs ≡ some (some c')
    → valid_cookie c' ≡ true
unfolding extract_cookie valid_cookie
extract_cookie-valid_cookie c cs {c'} e = elim (Option-cases (strchr cs b';')) [
  | inl missing ↦ ground (arith, missing)
  | inr (semicolon, at) ↦
      let (content, _, e1) =
        >>=-eq-some (copy_text c.content cs (length cs - length semicolon)) _
          (rw (extract_cookie, at) at e) in
      let (domain, _, e2) = >>=-eq-some (copy_property c.domain (codes "domain=") cs) _ e1 in
      let (expires, _, e3) = >>=-eq-some (copy_property c.expires (codes "expires=") cs) _ e2 in
      let (path, _, e4) = >>=-eq-some (copy_property c.path (codes "path=") cs) _ e3 in
      let magic : cookie_magic ≡ c'.magic_cookie = cc in
      (==_iff c'.magic_cookie cookie_magic).1 (sym magic)
]

-- The first `n` cookies of the list are valid.
abbrev pub FirstValid : List Cookie → ℕ → Type 0
FirstValid clist n =
    (i : ℕ) (c : Cookie) → i < n → get_elem? clist i ≡ some c → valid_cookie c ≡ true

-- The slots from `n` on are the same in both lists.
abbrev pub SameFrom : ℕ → List Cookie → List Cookie → Type 0
SameFrom n clist out = (i : ℕ) → n ≤ i → get_elem? out i ≡ get_elem? clist i

-- Reading went from `n` cookies in `clist` to `m` cookies in `out`.
pub record ReadTo (clist : List Cookie) (n : ℕ) (out : List Cookie) (m : ℕ) : Type 0 where
  pub more : n ≤ m
  pub size : length out ≡ length clist
  pub valid : FirstValid clist n → FirstValid out m
  pub same : SameFrom m clist out

ReadTo-refl : (clist : List Cookie) (n : ℕ) → ReadTo clist n clist n
ReadTo-refl clist n = record {
  more = omega arith;
  size = refl;
  valid = λ h. h;
  same = λ i le. refl;
}

ReadTo-trans : {a b c : List Cookie} {l m n : ℕ} → ReadTo a l b m → ReadTo b m c n → ReadTo a l c n
ReadTo-trans {m = m} {n = n} h k = record {
  more = omega (arith, h.more, k.more);
  size = k.size ∙ h.size;
  valid = λ v. k.valid (h.valid v);
  same = λ i le. k.same i le ∙ h.same i (omega (arith, k.more));
}

ReadTo-set :
    (clist : List Cookie) (n : ℕ) (c : Cookie)
    → n < length clist
    → valid_cookie c ≡ true
    → ReadTo clist n (set clist n c) (n + 1)
ReadTo-set clist n c lt ok = record {
  more = omega arith;
  size = length-set clist n c;
  valid = extended;
  same = λ i le. get_elem?-set_ne clist c (λ (e : n ≡ i). omega arith);
}
  where
    extended : FirstValid clist n → FirstValid (set clist n c) (n + 1)
    extended v i d below at = elim (Bool-cases (n == i)) [
      | inl e ↦
          let here : n ≡ i = (==_iff n i).0 e in
          let now : get_elem? (set clist n c) n ≡ some d =
            ap (get_elem? (set clist n c)) here ∙ at in
          let same : c ≡ d = let own = get_elem?-set_self clist n c lt in cc in rw (← same) ok
      | inr e ↦
          let apart : n ≢ i = λ q. ground (arith, e, q) in
          v i d (omega arith) (sym (get_elem?-set_ne clist c apart) ∙ at)
    ]

-- The two parts of an equation between results.
same_list : {r : List Cookie × ℕ} {out : List Cookie} {m : ℕ} → r ≡ (out, m) → r.0 ≡ out
same_list e = ap (λ (p : List Cookie × ℕ). p.0) e

same_count : {r : List Cookie × ℕ} {out : List Cookie} {m : ℕ} → r ≡ (out, m) → r.1 ≡ m
same_count e = ap (λ (p : List Cookie × ℕ). p.1) e

store-ReadTo :
    (clist : List Cookie) (n : ℕ) (read : Option Cookie)
    → n < length clist
    → ((c : Cookie) → read ≡ some c → valid_cookie c ≡ true)
    → ReadTo clist n (store clist n read).0 (store clist n read).1
      × ((store clist n read).1 ≤ n + 1)
store-ReadTo clist n none lt ok = (ReadTo-refl clist n, omega arith)
store-ReadTo clist n (some c) lt ok = (ReadTo-set clist n c lt (ok c refl), omega arith)

read_slot-ReadTo :
    (clist : List Cookie) (n : ℕ) (cs : Bytes) {r : List Cookie × ℕ}
    → read_slot clist n cs ≡ some r
    → ReadTo clist n r.0 r.1 × (r.1 ≤ n + 1)
unfolding read_slot
read_slot-ReadTo clist n cs {r} e =
    let (c, at, e1) = >>=-eq-some (get_elem? clist n) _ e in
    let (read, extracted, e2) = >>=-eq-some (extract_cookie c cs) _ e1 in
    let same : store clist n read ≡ r = cc in
    rw (← same) (
      store-ReadTo clist n read (lt_of_get_elem? clist n at)
        (λ c' q. extract_cookie-valid_cookie c cs (extracted ∙ ap some q)))

parse_loop-ReadTo :
    (fuel : ℕ) (clist : List Cookie) (n cmax : ℕ) (current : Bytes) {r : List Cookie × ℕ}
    → n ≤ cmax
    → parse_loop fuel clist n cmax current ≡ some r
    → ReadTo clist n r.0 r.1 × (r.1 ≤ cmax)
unfolding parse_loop
parse_loop-ReadTo zero clist n cmax current le e = cc
parse_loop-ReadTo (suc fuel) clist n cmax current {r} le e = elim (Bool-cases (ltb n cmax)) [
  | inl lt ↦
      let (header, found, e1) = >>=-eq-some (next_header current) _ (rw lt at e) in
      elim (Option-cases header) [
        | inl missing ↦ ended (rw missing at e1)
        | inr (cs, there) ↦
            let (r', stored, e2) = >>=-eq-some (read_slot clist n cs) _ (rw there at e1) in
            let (first, step) = read_slot-ReadTo clist n cs stored in
            let (rest, bound) =
              parse_loop-ReadTo fuel r'.0 r'.1 cmax cs (omega (arith, step, ltb→lt n cmax lt)) e2 in
            (ReadTo-trans first rest, bound)
      ]
  | inr ge ↦ ended (rw ge at e)
]
  where
    ended : some (clist, n) ≡ some r → ReadTo clist n r.0 r.1 × (r.1 ≤ cmax)
    ended q = let same : (clist, n) ≡ r = cc in rw (← same) (ReadTo-refl clist n, le)

-- Where `parse_cstring` returns, it has read at most `cmax` cookies. The list is as long as before,
-- the cookies that were counted are valid, and the slots behind them are untouched.
pub parse_cstring-ReadTo :
    (clist : List Cookie) (cmax : ℕ) (cstring : Bytes) {out : List Cookie} {n : ℕ}
    → parse_cstring clist cmax cstring ≡ some (out, n)
    → (n ≤ cmax) × (length out ≡ length clist) × FirstValid out n × SameFrom n clist out
unfolding parse_cstring
parse_cstring-ReadTo clist cmax cstring {out} {n} e =
    let (read, bound) =
      parse_loop-ReadTo (length cstring + 1) clist 0 cmax cstring (omega arith) e in
    (bound, read.size, read.valid (λ i c lt. absurd (omega arith)), read.same)

next_header-length :
    (current : Bytes) {cs : Bytes}
    → next_header current ≡ some (some cs)
    → length cs < length current
unfolding next_header
next_header-length current {cs} e = elim (Option-cases (strstr current (codes "Set-Cookie: "))) [
  | inl missing ↦ ground (arith, missing)
  | inr (found, there) ↦
      let (cs', moved, e1) = >>=-eq-some (advance 13 found) _ (rw (next_header, there) at e) in
      let same : cs' ≡ cs = cc in
      rw (← same) (
        omega (
          arith,
          strstr-length current (codes "Set-Cookie: ") there,
          advance-length 13 found moved,
        ))
]

-- More fuel than the text is long does not change what the loop of `parse_cstring` does.
pub parse_loop-fuel :
    (fuel more : ℕ) (clist : List Cookie) (n cmax : ℕ) (current : Bytes)
    → length current < fuel
    → length current < more
    → parse_loop fuel clist n cmax current ≡ parse_loop more clist n cmax current
unfolding parse_loop
parse_loop-fuel zero more clist n cmax current h k = absurd (omega arith)
parse_loop-fuel (suc fuel) zero clist n cmax current h k = absurd (omega arith)
parse_loop-fuel (suc fuel) (suc more) clist n cmax current h k = elim (Bool-cases (ltb n cmax)) [
  | inr ge ↦ rw ge
  | inl lt ↦ elim (Option-cases (next_header current)) [
    | inl fault ↦ rw (lt, fault)
    | inr (header, found) ↦ elim (Option-cases header) [
      | inl missing ↦ rw (lt, found, missing)
      | inr (cs, there) ↦
          let shorter = next_header-length current (found ∙ ap some there) in
          elim (Option-cases (read_slot clist n cs)) [
            | inl fault ↦ rw (lt, found, there, fault)
            | inr (r, read) ↦
                rw (lt, found, there, read)
                  (parse_loop-fuel fuel more r.0 r.1 cmax cs (omega arith) (omega arith))
          ]
    ]
  ]
]
