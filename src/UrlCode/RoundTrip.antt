-- ===== src/UrlCode/RoundTrip.antt =====
-- `urldecode_dup` on what `urlencode_dup` returned.
use freenote_probe.Base.{
  ℕ, ◌+◌, ◌*◌, ◌/◌, ◌%◌, ◌<◌, Bool, true, false, some, [], ◌∷◌, ◌++◌, ◌≡◌, refl, ap, ◌∙◌, arith,
  ◌==◌, ◌>>=◌, All, Bool-cases, inl, inr,
}
use freenote_probe.CString.{Bytes, isspace, hex_value, scan_hex2}
use freenote_probe.CString.Search.{Lacks, c_string-Lacks, scan_hex2_digits}
use freenote_probe.UrlCode.Encode.{encode, urlencode_dup-eq-some}
use freenote_probe.UrlCode.{
  is_literal, hex_digit, encode_byte, urlencode_dup, urldecode_common, urldecode_dup,
}

isspace-hex_digit : (n : ℕ) → n < 16 → isspace (hex_digit n) ≡ false
unfolding isspace hex_digit
isspace-hex_digit n h = ground arith

hex_value-hex_digit : (n : ℕ) → n < 16 → hex_value (hex_digit n) ≡ some n
unfolding hex_value hex_digit
hex_value-hex_digit n h = ground arith

hex_digit_plain :
    (n : ℕ)
    → n < 16
    → ((hex_digit n == b'-') ≡ false)
      × ((hex_digit n == b'+') ≡ false)
      × ((hex_digit n == b'x') ≡ false)
      × ((hex_digit n == b'X') ≡ false)
unfolding hex_digit
hex_digit_plain n h = (ground arith, ground arith, ground arith, ground arith)

-- The two digits of an escape are read back as the byte.
scan_hex2-hex_digit :
    (h l : ℕ) (rest : Bytes)
    → h < 16
    → l < 16
    → scan_hex2 (hex_digit h ∷ hex_digit l ∷ rest) ≡ some (h * 16 + l)
scan_hex2-hex_digit h l rest hh hl =
    let (minus, plus, _, _) = hex_digit_plain h hh in
    let (_, _, x, x') = hex_digit_plain l hl in
    scan_hex2_digits _ _ rest (isspace-hex_digit h hh) minus plus x x' (hex_value-hex_digit h hh)
      (hex_value-hex_digit l hl)

is_literal-percent : (pr : Bool) → is_literal pr b'%' ≡ false
unfolding is_literal
is_literal-percent true = refl
is_literal-percent false = refl

urldecode_common_literal :
    (c : ℕ) (rest : Bytes) (tmp : ℕ)
    → (c == b'%') ≡ false
    → urldecode_common (c ∷ rest) tmp ≡ urldecode_common rest tmp >>= λ to. some (c ∷ to)
unfolding urldecode_common
urldecode_common_literal c [] tmp h = rw h
urldecode_common_literal c (a ∷ []) tmp h = rw h
urldecode_common_literal c (a ∷ b ∷ rest) tmp h = rw h

urldecode_common_escape :
    (a b : ℕ) (rest : Bytes) (tmp : ℕ) {v : ℕ}
    → scan_hex2 (a ∷ b ∷ rest) ≡ some v
    → v < 256
    → urldecode_common (b'%' ∷ a ∷ b ∷ rest) tmp ≡ urldecode_common rest v >>= λ to. some (v ∷ to)
unfolding urldecode_common
urldecode_common_escape a b rest tmp {v} h lt = let m : v % 256 ≡ v = omega arith in rw (h, m)

urldecode_common-encode_byte :
    (pr : Bool) (c : ℕ) (rest : Bytes) (tmp : ℕ)
    → c < 256
    → (t : ℕ) × (urldecode_common (encode_byte pr c ++ rest) tmp
        ≡ urldecode_common rest t >>= λ to. some (c ∷ to))
urldecode_common-encode_byte pr c rest tmp h = elim (Bool-cases (is_literal pr c)) [
  | inl e ↦ (tmp, unfold encode_byte in rw e (urldecode_common_literal c rest tmp (not_percent e)))
  | inr e ↦ (c, unfold encode_byte in rw e (urldecode_common_escape _ _ rest tmp digits h))
]
  where
    not_percent : is_literal pr c ≡ true → (c == b'%') ≡ false
    not_percent e = ground (arith, e, is_literal-percent pr)

    digits : scan_hex2 (hex_digit (c / 16) ∷ hex_digit (c % 16) ∷ rest) ≡ some c
    digits =
        scan_hex2-hex_digit (c / 16) (c % 16) rest (omega arith) (omega arith)
        ∙ ap some (omega arith)

urldecode_common-encode :
    (pr : Bool) (s : Bytes) (tmp : ℕ)
    → All (λ c. c < 256) s
    → urldecode_common (encode pr s) tmp ≡ some s
urldecode_common-encode pr [] tmp h = unfold urldecode_common in refl
urldecode_common-encode pr (c ∷ s) tmp (hc, hs) =
    let (t, e) = urldecode_common-encode_byte pr c (encode pr s) tmp hc in
    e ∙ rw (urldecode_common-encode pr s t hs) refl

-- Decoding what `urlencode_dup` returned gives the text back, for every text of bytes 1 to 255,
-- whichever characters were preserved and whatever the uninitialised `tmp` held.
pub urldecode_dup-urlencode_dup :
    (s : Bytes) (preserve_reserved : Bool) (unset : ℕ) {to : Bytes}
    → All (λ c. c < 256) s
    → Lacks 0 s
    → urlencode_dup s preserve_reserved ≡ some to
    → urldecode_dup to unset ≡ some s
unfolding urldecode_dup
urldecode_dup-urlencode_dup s pr unset {to} h z e =
    let r : encode pr s ≡ to = urlencode_dup-eq-some s pr e in
    rw (← r) (rw (urldecode_common-encode pr s unset h) (rw (c_string-Lacks s z) refl))
