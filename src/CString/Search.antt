-- ===== src/CString/Search.antt =====
-- Laws of the string searches that the parsers of the probe rest on.
use freenote_probe.Base.{
  zero, suc, ◌≤◌, ℕ, ◌-◌, true, none, some, [], ◌∷◌, ◌++◌, ◌≡◌, ◌≢◌, ◌↔◌, refl, sym, ap, ◌∙◌,
  append_assoc, arith, length, take, All, length-append, Bool-cases, inl, inr, ◌+◌, ◌*◌, false,
  ◌==◌, take-length,
}
use freenote_probe.CString.{
  hex_signed, hex_second, isspace, hex_value, scan_hex2, Bytes, streq, strchr, advance, c_string,
  starts_with, strstr,
}

abbrev pub Lacks : ℕ → Bytes → Type 0
Lacks b = All (λ c. c ≢ b)

pub streq_iff : (a b : Bytes) → (streq a b ≡ true) ↔ (a ≡ b)
unfolding streq
streq_iff [] [] = ground arith
streq_iff [] (y ∷ b) = ground arith
streq_iff (x ∷ a) [] = ground arith
streq_iff (x ∷ a) (y ∷ b) = ground (arith, streq_iff a b)

pub strchr-append : (p r : Bytes) (c : ℕ) → Lacks c p → strchr (p ++ c ∷ r) c ≡ some (c ∷ r)
unfolding strchr
strchr-append [] r c h = ground arith
strchr-append (x ∷ p) r c (hx, hp) = ground (arith, strchr-append p r c hp)

pub strchr-Lacks : (p : Bytes) (c : ℕ) → Lacks c p → strchr p c ≡ none
unfolding strchr
strchr-Lacks [] c h = refl
strchr-Lacks (x ∷ p) c (hx, hp) = ground (arith, strchr-Lacks p c hp)

pub strchr_skip : (p r : Bytes) (c : ℕ) → Lacks c p → strchr (p ++ r) c ≡ strchr r c
unfolding strchr
strchr_skip [] r c h = refl
strchr_skip (x ∷ p) r c (hx, hp) = ground (arith, strchr_skip p r c hp)

pub strchr-length : (s : Bytes) (c : ℕ) {q : Bytes} → strchr s c ≡ some q → length q ≤ length s
unfolding strchr
strchr-length [] c e = cc
strchr-length (x ∷ s) c {q} e = elim (Bool-cases (x == c)) [
  | inl t ↦ let same : x ∷ s ≡ q = ground (arith, t) in rw (← same) (omega arith)
  | inr t ↦ omega (arith, strchr-length s c (rw t at e))
]

-- What stands before a suffix, by the difference of the two lengths.
pub take-sub_length : (p r : Bytes) → take (length (p ++ r) - length r) (p ++ r) ≡ p
take-sub_length p r =
    let e : length (p ++ r) - length r ≡ length p = omega (arith, length-append {0} p r) in
    ap (λ n. take n (p ++ r)) e ∙ take-length p r

pub c_string-Lacks : (s : Bytes) → Lacks 0 s → c_string s ≡ s
unfolding c_string
c_string-Lacks [] h = refl
c_string-Lacks (x ∷ s) (hx, hs) = ground (arith, c_string-Lacks s hs)

pub starts_with-append : (p r : Bytes) → starts_with (p ++ r) p ≡ true
unfolding starts_with
starts_with-append [] [] = refl
starts_with-append [] (x ∷ r) = refl
starts_with-append (x ∷ p) r = ground (arith, starts_with-append p r)

pub advance-append : (p r : Bytes) → advance (length p) (p ++ r) ≡ some r
unfolding advance
advance-append [] r = refl
advance-append (x ∷ p) r = advance-append p r

hex_second_digit :
    (h d : ℕ) (rest : Bytes) {l : ℕ}
    → (d == b'x') ≡ false
    → (d == b'X') ≡ false
    → hex_value d ≡ some l
    → hex_second h (d ∷ rest) ≡ some (h * 16 + l)
unfolding hex_second
hex_second_digit h d rest x x' e = elim (Bool-cases (h == 0)) [
  | inl z ↦ rw (x, x', e, z)
  | inr z ↦ rw (e, z)
]

hex_signed_digit :
    (c : ℕ) (s : Bytes) {h : ℕ}
    → (c == b'-') ≡ false
    → (c == b'+') ≡ false
    → hex_value c ≡ some h
    → hex_signed (c ∷ s) ≡ hex_second h s
hex_signed_digit c s minus plus e = unfold hex_signed in rw (minus, plus, e) refl

-- Two hexadecimal digits are read as the number that they spell, whatever follows.
pub scan_hex2_digits :
    (c d : ℕ) (rest : Bytes) {h l : ℕ}
    → isspace c ≡ false
    → (c == b'-') ≡ false
    → (c == b'+') ≡ false
    → (d == b'x') ≡ false
    → (d == b'X') ≡ false
    → hex_value c ≡ some h
    → hex_value d ≡ some l
    → scan_hex2 (c ∷ d ∷ rest) ≡ some (h * 16 + l)
scan_hex2_digits c d rest {h} {l} space minus plus x x' hc hd =
    skipped ∙ hex_signed_digit c (d ∷ rest) minus plus hc ∙ hex_second_digit h d rest x x' hd
  where
    skipped : scan_hex2 (c ∷ d ∷ rest) ≡ hex_signed (c ∷ d ∷ rest)
    skipped = unfold scan_hex2 in rw space

-- A byte that `strchr` does not find is not there.
pub Lacks-strchr : (s : Bytes) (c : ℕ) → strchr s c ≡ none → Lacks c s
unfolding strchr
Lacks-strchr [] c h = tt
Lacks-strchr (x ∷ s) c h = elim (Bool-cases (x == c)) [
  | inl e ↦ ground (arith, e)
  | inr e ↦ (λ q. ground (arith, e, q), Lacks-strchr s c (ground (arith, e)))
]

pub strstr-length : (s p : Bytes) {q : Bytes} → strstr s p ≡ some q → length q ≤ length s
unfolding strstr
strstr-length [] p {q} e = elim (Bool-cases (starts_with [] p)) [
  | inl t ↦ let same : [] ≡ q = ground (arith, t) in rw (← same) (omega arith)
  | inr t ↦ ground (arith, t)
]
strstr-length (x ∷ s) p {q} e = elim (Bool-cases (starts_with (x ∷ s) p)) [
  | inl t ↦ let same : x ∷ s ≡ q = ground (arith, t) in rw (← same) (omega arith)
  | inr t ↦ omega (arith, strstr-length s p (rw t at e))
]

pub advance-length :
    (n : ℕ) (s : Bytes) {q : Bytes} → advance n s ≡ some q → length q + n ≡ length s
unfolding advance
advance-length zero s {q} e = let same : s ≡ q = cc in rw (← same) (omega arith)
advance-length (suc n) [] e = cc
advance-length (suc n) (x ∷ s) e = omega (arith, advance-length n s e)

starts_with-extend :
    (s r p : Bytes) → length p ≤ length s → starts_with (s ++ r) p ≡ starts_with s p
unfolding starts_with
starts_with-extend [] [] [] h = refl
starts_with-extend [] (x ∷ r) [] h = refl
starts_with-extend [] r (y ∷ p) h = absurd (omega arith)
starts_with-extend (x ∷ s) r [] h = refl
starts_with-extend (x ∷ s) r (y ∷ p) h = rw (starts_with-extend s r p (omega arith)) refl

-- Where a pattern has no earlier occurrence, it is found in front of whatever follows it.
pub strstr-extend :
    (s r : Bytes) (y : ℕ) (p : Bytes)
    → strstr (s ++ y ∷ p) (y ∷ p) ≡ some (y ∷ p)
    → strstr (s ++ (y ∷ p ++ r)) (y ∷ p) ≡ some (y ∷ p ++ r)
unfolding strstr
strstr-extend [] r y p e = rw (starts_with-append (y ∷ p) r) refl
strstr-extend (x ∷ s) r y p e = elim (Bool-cases (starts_with (x ∷ s ++ y ∷ p) (y ∷ p))) [
  | inl t ↦ absurd (
      let same : some (x ∷ s ++ y ∷ p) ≡ some (y ∷ p) = rw t at e in
      let size : suc (length (s ++ y ∷ p)) ≡ suc (length p) =
        ap (λ o. elim o [ none ↦ 0 | some q ↦ length q ]) same in
      omega (arith, size, length-append {0} s (y ∷ p)))
  | inr t ↦
      let longer : starts_with ((x ∷ s ++ y ∷ p) ++ r) (y ∷ p) ≡ false =
        starts_with-extend (x ∷ s ++ y ∷ p) r (y ∷ p) (omega (arith, length-append {0} s (y ∷ p)))
        ∙ t in
      let here : starts_with (x ∷ s ++ (y ∷ p ++ r)) (y ∷ p) ≡ false =
        ap (λ q. starts_with q (y ∷ p)) (sym (append_assoc (x ∷ s) (y ∷ p) r)) ∙ longer in
      rw here (strstr-extend s r y p (rw t at e))
]

pub c_string-append : (h r : Bytes) → Lacks 0 h → c_string (h ++ r) ≡ h ++ c_string r
unfolding c_string
c_string-append [] r h = refl
c_string-append (x ∷ s) r (hx, h) =
    let no : (x == 0) ≡ false = ground (arith, hx) in rw no (ap (◌∷◌ x) (c_string-append s r h))
