-- ===== src/UrlCode/Encode.antt =====
-- What `urlencode_dup` of src/urlencode.c returns, and the room that it needs.
use freenote_probe.Base.{
  ℕ, ◌+◌, ◌-◌, ◌*◌, ◌/◌, ◌%◌, ◌≤◌, ◌<◌, Bool, true, false, ◌||◌, none, some, [], ◌∷◌, ◌++◌, ◌≡◌,
  refl, arith, ltb, ◌==◌, if◌then◌else◌, length, All, Bool-cases, inl, inr, ltb→lt, All-append, ◌⊎◌,
  length-append,
}
use freenote_probe.CString.{Bytes}
use freenote_probe.UrlCode.{is_literal, hex_digit, encode_byte, urlencode_common, urlencode_dup}

-- The encoding with no buffer: each byte on its own.
abbrev pub encode : Bool → Bytes → Bytes
encode pr [] = []
encode pr (c ∷ s) = encode_byte pr c ++ encode pr s

-- The bytes that are copied as they are.
abbrev pub literals : Bool → Bytes → ℕ
literals pr [] = 0
literals pr (c ∷ s) = (if is_literal pr c then 1 else 0) + literals pr s

length-encode_byte :
    (pr : Bool) (c : ℕ) → length (encode_byte pr c) + 2 * (if is_literal pr c then 1 else 0) ≡ 3
unfolding encode_byte
length-encode_byte pr c = elim (Bool-cases (is_literal pr c)) [
  | inl e ↦ rw e refl
  | inr e ↦ rw e refl
]

length-encode : (pr : Bool) (s : Bytes) → length (encode pr s) + 2 * literals pr s ≡ length s * 3
length-encode pr [] = omega arith
length-encode pr (c ∷ s) = omega (
  arith,
  length-encode pr s,
  length-encode_byte pr c,
  length-append {0} (encode_byte pr c) (encode pr s),
)

literals-le : (pr : Bool) (s : Bytes) → literals pr s ≤ length s
literals-le pr [] = omega arith
literals-le pr (c ∷ s) = ground (arith, literals-le pr s)

-- With a byte of room to spare the loop writes the encoding.
urlencode_common-fits :
    (pr : Bool) (s : Bytes) (room : ℕ)
    → length (encode pr s) < room
    → urlencode_common s room pr ≡ some (encode pr s)
unfolding urlencode_common encode_byte
urlencode_common-fits pr [] room h = refl
urlencode_common-fits pr (c ∷ s) room h = elim (Bool-cases (is_literal pr c)) [
  | inl e ↦ rw e (ground (arith, e, urlencode_common-fits pr s (room - 1)))
  | inr e ↦ rw e (ground (arith, e, urlencode_common-fits pr s (room - 3)))
]

-- The loop writes the encoding, or it runs out of its buffer.
urlencode_common-cases :
    (pr : Bool) (s : Bytes) (room : ℕ)
    → (urlencode_common s room pr ≡ none) ⊎ (urlencode_common s room pr ≡ some (encode pr s))
unfolding urlencode_common encode_byte
urlencode_common-cases pr [] room = inr refl
urlencode_common-cases pr (c ∷ s) room = elim (Bool-cases (is_literal pr c)) [
  | inl e ↦ ground (arith, e, urlencode_common-cases pr s (room - 1))
  | inr e ↦ ground (arith, e, urlencode_common-cases pr s (room - 3))
]

-- `urlencode_dup` returns the text with each unsafe byte as a `%` escape if at least one byte of
-- the text is copied as it is, and otherwise goes outside the buffer that it allocated.
pub urlencode_dup_lem :
    (s : Bytes) (preserve_reserved : Bool)
    → urlencode_dup s preserve_reserved
      ≡ (if ltb 0 (literals preserve_reserved s) then some (encode preserve_reserved s) else none)
unfolding urlencode_dup
urlencode_dup_lem s pr = elim (Bool-cases (ltb 0 (literals pr s))) [
  | inl e ↦ rw e (
      rw
        (urlencode_common-fits pr s (length s * 3)
          (omega (arith, length-encode pr s, ltb→lt 0 (literals pr s) e)))
        (ground (arith, e, length-encode pr s)))
  | inr e ↦ ground (arith, e, length-encode pr s, urlencode_common-cases pr s (length s * 3))
]

pub urlencode_dup-eq-some :
    (s : Bytes) (pr : Bool) {to : Bytes} → urlencode_dup s pr ≡ some to → encode pr s ≡ to
urlencode_dup-eq-some s pr {to} e = ground (arith, urlencode_dup_lem s pr)

-- The bytes of an encoded text: those that may stand in a URL, and the escape mark.
abbrev pub IsUrlByte : ℕ → Type 0
IsUrlByte c = (is_literal true c || c == b'%') ≡ true

hex_digit-IsUrlByte : (n : ℕ) → n < 16 → IsUrlByte (hex_digit n)
unfolding hex_digit is_literal
hex_digit-IsUrlByte n h = ground arith

is_literal_mono : (pr : Bool) (c : ℕ) → is_literal pr c ≡ true → is_literal true c ≡ true
unfolding is_literal
is_literal_mono true c h = h
is_literal_mono false c h = grind arith

encode_byte-IsUrlByte : (pr : Bool) (c : ℕ) → c < 256 → All IsUrlByte (encode_byte pr c)
unfolding encode_byte
encode_byte-IsUrlByte pr c h = elim (Bool-cases (is_literal pr c)) [
  | inl e ↦ rw e (rw (is_literal_mono pr c e) refl, tt)
  | inr e ↦ rw e (
    ground arith,
    (hex_digit-IsUrlByte (c / 16) (omega arith), (hex_digit-IsUrlByte (c % 16) (omega arith), tt)),
  )
]

encode-IsUrlByte : (pr : Bool) (s : Bytes) → All (λ c. c < 256) s → All IsUrlByte (encode pr s)
encode-IsUrlByte pr [] h = tt
encode-IsUrlByte pr (c ∷ s) (hc, hs) =
    All-append IsUrlByte (encode_byte pr c) (encode pr s) (encode_byte-IsUrlByte pr c hc)
      (encode-IsUrlByte pr s hs)

-- Whatever `urlencode_dup` returns for a byte string holds only URL bytes and `%`, and is at least
-- as long as the text and at most three times as long.
pub urlencode_dup-IsUrlByte :
    (s : Bytes) (preserve_reserved : Bool) {to : Bytes}
    → All (λ c. c < 256) s
    → urlencode_dup s preserve_reserved ≡ some to
    → All IsUrlByte to × (length s ≤ length to) × (length to ≤ length s * 3)
urlencode_dup-IsUrlByte s pr {to} h e = rw (← (urlencode_dup-eq-some s pr e)) (
  encode-IsUrlByte pr s h,
  omega (arith, length-encode pr s, literals-le pr s),
  omega (arith, length-encode pr s),
)
