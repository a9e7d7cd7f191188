-- ===== src/HeaderParse/Field.antt =====
-- src/header-parse.c: the value of a field that stands in the header.
use mathlib.Core.Option
use freenote_probe.Base.{
  ℕ, suc, ◌+◌, ◌-◌, Bool, true, false, Option, none, some, [], ◌∷◌, ◌++◌, ◌==◌, leb, ltb, ◌≡◌, ◌≢◌,
  refl, sym, ap, ◌∙◌, arith, length, take, drop, All-append, length-append, take-length,
  drop-length, drop_past, append_assoc,
}
use freenote_probe.CString.{Bytes, strstr, strrchr, starts_with, isspace, starts_with_nocase}
use freenote_probe.CString.Search.{Lacks, starts_with-append}
use freenote_probe.Ran.{Ran, returns, ◌>>=◌}
use freenote_probe.HeaderParse.{
  find, header_type, type_of, spaces, copy_value, take_value, read_line, read_lines, from_line,
  header_of, get_header_dup, normal_header,
}

-- A text without the first byte of the pattern is passed over.
strstr_skip : (p r ps : Bytes) (c : ℕ) → Lacks c p → strstr (p ++ r) (c ∷ ps) ≡ strstr r (c ∷ ps)
unfolding strstr starts_with
strstr_skip [] r ps c h = refl
strstr_skip (x ∷ p) r ps c (hx, h) =
    let no : (x == c) ≡ false = ground (arith, hx) in rw no (strstr_skip p r ps c h)

strstr_here : (p r : Bytes) (x : ℕ) → strstr (x ∷ p ++ r) (x ∷ p) ≡ some (x ∷ p ++ r)
unfolding strstr
strstr_here p r x = rw (starts_with-append (x ∷ p) r) refl

nocase-append : (p r : Bytes) → starts_with_nocase (p ++ r) p ≡ true
unfolding starts_with_nocase
nocase-append [] [] = refl
nocase-append [] (x ∷ r) = refl
nocase-append (x ∷ p) r = ground (arith, nocase-append p r)

-- The offset of a suffix.
suffix_at : (p r : Bytes) → length (p ++ r) - length r ≡ length p
suffix_at p r = omega (arith, length-append {0} p r)

module _ (first hdr value body : Bytes) (n v : ℕ) where
  abbrev last_line : Bytes
  last_line = 13 ∷ 10 ∷ 13 ∷ 10 ∷ body

  abbrev text : Bytes
  text = v ∷ value ++ last_line

  -- The end of a line, the name and the colon, as the code searches for them.
  abbrev mark : Bytes
  mark = 13 ∷ 10 ∷ n ∷ hdr ++ b':' ∷ []

  abbrev field : Bytes
  field = (n ∷ hdr) ++ b':' ∷ b' ' ∷ (v ∷ value)

  abbrev behind_first : Bytes
  behind_first = 13 ∷ 10 ∷ (field ++ last_line)

  -- A first line, and a field as the only line behind it.
  abbrev pub one_field : Bytes
  one_field = first ++ behind_first

  field_text : behind_first ≡ mark ++ b' ' ∷ text
  field_text =
      ap (λ t. 13 ∷ 10 ∷ n ∷ t)
        (append_assoc hdr (b':' ∷ b' ' ∷ (v ∷ value)) last_line
          ∙ sym (append_assoc hdr (b':' ∷ []) (b' ' ∷ text)))

  module _ (hf : Lacks 13 first) (hh : Lacks 13 (n ∷ hdr)) (hv : Lacks 13 (v ∷ value)) where
    field-Lacks : Lacks 13 field
    field-Lacks =
        All-append (λ c. c ≢ 13) (n ∷ hdr) (b':' ∷ b' ' ∷ (v ∷ value)) hh
          ((λ e. omega (arith, e)), ((λ e. omega (arith, e)), hv))

    ends_at : strstr one_field (13 ∷ 10 ∷ 13 ∷ 10 ∷ []) ≡ some last_line
    ends_at =
        strstr_skip first behind_first (10 ∷ 13 ∷ 10 ∷ []) 13 hf
        ∙ inner
        ∙ strstr_skip field last_line (10 ∷ 13 ∷ 10 ∷ []) 13 field-Lacks
        ∙ strstr_here (10 ∷ 13 ∷ 10 ∷ []) body 13
      where
        inner :
            strstr behind_first (13 ∷ 10 ∷ 13 ∷ 10 ∷ [])
            ≡ strstr (field ++ last_line) (13 ∷ 10 ∷ 13 ∷ 10 ∷ [])
        inner =
            let no : (n == 13) ≡ false = ground (arith, hh.0) in
            unfold strstr starts_with in rw no refl

    first_end : strstr one_field (13 ∷ 10 ∷ []) ≡ some behind_first
    first_end =
        strstr_skip first behind_first (10 ∷ []) 13 hf
        ∙ strstr_here (10 ∷ []) (field ++ last_line) 13

    value_end : strstr (b' ' ∷ text) (13 ∷ 10 ∷ []) ≡ some last_line
    value_end =
        strstr_skip (b' ' ∷ v ∷ value) last_line (10 ∷ []) 13 ((λ e. omega (arith, e)), hv)
        ∙ strstr_here (10 ∷ []) (13 ∷ 10 ∷ body) 13

    abbrev split : ℕ
    split = length one_field - length last_line

    split_is : header_type one_field ≡ (normal_header, split)
    split_is =
        unfold header_type in
        ap
          (λ (q : Option Bytes).
            type_of (Option.map (λ r. length one_field - length r) q)
              (find (10 ∷ 10 ∷ []) one_field 0) (strrchr one_field 10) (strrchr one_field 13))
          ends_at

    starts_at : find (13 ∷ 10 ∷ []) one_field 0 ≡ some (length first)
    starts_at =
        ap (Option.map (λ q. length one_field - length q)) first_end
        ∙ ap some (suffix_at first behind_first)

    at_text : drop (length first + length mark) one_field ≡ b' ' ∷ text
    at_text =
        drop_past first behind_first (length mark)
        ∙ ap (drop (length mark)) field_text
        ∙ drop-length mark (b' ' ∷ text)

    value_ends : find (13 ∷ 10 ∷ []) one_field (length first + length mark) ≡ some split
    value_ends =
        ap (λ s. Option.map (λ q. length one_field - length q) (strstr s (13 ∷ 10 ∷ []))) at_text
        ∙ ap (Option.map (λ q. length one_field - length q)) value_end

    sizes : split ≡ length first + length mark + 1 + length (v ∷ value)
    sizes = omega (
      arith,
      length-append {0} first behind_first,
      ap length field_text,
      length-append {0} mark (b' ' ∷ text),
      length-append {0} (v ∷ value) last_line,
    )

    at_value : drop (length first + length mark + 1) one_field ≡ text
    at_value =
        ap (λ k. drop k one_field)
          (let e : length first + length mark + 1 ≡ length first + (length mark + 1) =
              omega arith in
            e)
        ∙ drop_past first behind_first (length mark + 1)
        ∙ ap (drop (length mark + 1)) field_text
        ∙ drop_past mark (b' ' ∷ text) 1

    copied : copy_value one_field (length first + length mark + 1) split ≡ returns (v ∷ value)
    copied =
        let fits : leb (length first + length mark + 1) split ≡ true = ground (arith, sizes) in
        let count : split - (length first + length mark + 1) ≡ length (v ∷ value) =
          omega (arith, sizes) in
        unfold copy_value in
        rw fits (
          ap returns (
            ap (λ k. take k (drop (length first + length mark + 1) one_field)) count
            ∙ ap (take (length (v ∷ value))) at_value
            ∙ take-length (v ∷ value) last_line))

    module _ (space : isspace v ≡ false) where
      one_space : spaces (drop (length first + length mark) one_field) ≡ 1
      one_space = ap spaces at_text ∙ (unfold spaces isspace in rw space refl)

      read_value :
          (go : ℕ → Option Bytes → Ran (Option Bytes))
          → read_line go true mark one_field (length first) none ≡ go (split + 2) (some (v ∷ value))
      read_value go =
          let found : starts_with_nocase (drop (length first) one_field) mark ≡ true =
            ap (λ s. starts_with_nocase s mark) (drop-length first behind_first ∙ field_text)
            ∙ nocase-append mark (b' ' ∷ text) in
          rw found (
            ap (take_value go true one_field (length first + length mark)) value_ends
            ∙ ap
                (λ m. copy_value one_field (length first + length mark + m) split >>= λ w.
                  go (split + 2) (some w))
                one_space
            ∙ ap (λ m. m >>= λ w. go (split + 2) (some w)) copied)

      read_all :
          (fuel : ℕ)
          → read_lines (suc (suc fuel)) true mark split one_field (length first) none
            ≡ returns (some (v ∷ value))
      read_all fuel =
          let early : ltb split (length first) ≡ false = ground (arith, sizes) in
          let late : ltb split (split + 2) ≡ true = ground arith in
          unfold read_lines in
          rw early (
            read_value (λ c2 ret2. read_lines (suc fuel) true mark split one_field c2 ret2)
            ∙ rw late refl)

-- A header with a first line and a field, "first\r\nname: value\r\n\r\nbody", none of whose three
-- texts holds "\r" and whose value begins with no space: the value of the field is found, whatever
-- the variable `cr` held before.
pub get_header_dup_field :
    (junk : Bool) (first hdr value body : Bytes) (n v : ℕ)
    → Lacks 13 first
    → Lacks 13 (n ∷ hdr)
    → Lacks 13 (v ∷ value)
    → isspace v ≡ false
    → get_header_dup junk (n ∷ hdr) (one_field first hdr value body n v)
      ≡ returns (some (v ∷ value))
unfolding get_header_dup
get_header_dup_field junk first hdr value body n v hf hh hv space =
    ap (header_of junk (n ∷ hdr) page) (split_is first hdr value body n v hf hh hv)
    ∙ ap
        (from_line true (mark first hdr value body n v) (split first hdr value body n v hf hh hv)
          page)
        (starts_at first hdr value body n v hf hh hv)
    ∙ ap
        (λ k.
          read_lines k true (mark first hdr value body n v)
            (split first hdr value body n v hf hh hv) page (length first) none)
        (let e : length page + 2 ≡ suc (suc (length page)) = omega arith in e)
    ∙ read_all first hdr value body n v hf hh hv space (length page)
  where
    page : Bytes
    page = one_field first hdr value body n v
