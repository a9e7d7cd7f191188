-- ===== src/FileMan/TeamInfo.antt =====
-- src/lib/fileman.c: `fm_team_info` on a file that holds both fields.
use freenote_probe.Base.{
  ℕ, zero, suc, ◌+◌, ◌-◌, ◌<◌, true, none, some, [], ◌∷◌, ◌++◌, ◌≡◌, ap, ◌∙◌, arith, ltb, length,
  drop, set, replicate, length-replicate, append-nil, drop-length,
}
use freenote_probe.Base.Int.{pos, negsuc}
use freenote_probe.CString.{Bytes, codes, strstr, c_string}
use freenote_probe.CString.Search.{
  Lacks, strstr-extend, strchr-append, take-sub_length, c_string-append,
}
use freenote_probe.Ran.{Ran, returns, faults}
use freenote_probe.FileMan.{
  Files, TeamInfo, team_info_size, fm_read, store_info, store_field, info_field, fm_team_info,
}

-- The name of a field stands behind `before` for the first time, and its value up to a semicolon.
pub record HasField (text : Bytes) (name : Bytes) (value : Bytes) : Type 0 where
  pub before : Bytes
  pub rest : Bytes
  pub is_text : text ≡ before ++ (name ++ (value ++ b';' ∷ rest))
  pub first : strstr (before ++ name) name ≡ some name
  pub one_line : Lacks b';' value

info_field-HasField :
    (text value : Bytes) (y : ℕ) (p : Bytes)
    → HasField text (y ∷ p) value
    → info_field text (y ∷ p) ≡ some value
unfolding info_field
info_field-HasField text value y p f =
    let found : strstr text (y ∷ p) ≡ some ((y ∷ p) ++ (value ++ b';' ∷ f.rest)) =
      ap (λ s. strstr s (y ∷ p)) f.is_text
      ∙ strstr-extend f.before (value ++ b';' ∷ f.rest) y p f.first in
    rw found (
      rw (drop-length (y ∷ p) (value ++ b';' ∷ f.rest)) (
        rw (strchr-append value f.rest b';' f.one_line)
          (ap some (take-sub_length value (b';' ∷ f.rest)))))

drop-replicate : (k n : ℕ) → drop k (replicate {A = ℕ} n 0) ≡ replicate {A = ℕ} (n - k) 0
drop-replicate zero n = ap (λ m. replicate {A = ℕ} m 0) (let e : n ≡ n - 0 = omega arith in e)
drop-replicate (suc k) zero =
    ap (λ m. replicate {A = ℕ} m 0) (let e : 0 ≡ 0 - suc k = omega arith in e)
drop-replicate (suc k) (suc n) =
    drop-replicate k n
    ∙ ap (λ m. replicate {A = ℕ} m 0) (let e : n - k ≡ suc n - suc k = omega arith in e)

set-past : (p r : Bytes) (i v : ℕ) → set (p ++ r) (length p + i) v ≡ p ++ set r i v
set-past [] r i v = ap (λ n. set r n v) (let e : 0 + i ≡ i = omega arith in e)
set-past (x ∷ p) r i v =
    ap (λ n. set (x ∷ p ++ r) n v)
      (let e : suc (length p) + i ≡ suc (length p + i) = omega arith in e)
    ∙ ap (◌∷◌ x) (set-past p r i v)

-- Behind the text an empty array is zero, so the byte that is written behind its end does no harm.
store_info-empty :
    (n : ℕ) (text : Bytes)
    → Lacks 0 text
    → length text + 1 < n
    → (filled : Bytes) × (store_info (replicate n 0) text ≡ some filled) × (c_string filled ≡ text)
unfolding store_info
store_info-empty n text plain fits =
    let k = n - length text - 2 in
    let size : length (replicate {A = ℕ} n 0) ≡ n = length-replicate {0} {A = ℕ} n 0 in
    let within : ltb (length text + 1) n ≡ true = ground arith in
    let behind : drop (length text) (replicate {A = ℕ} n 0) ≡ 0 ∷ 0 ∷ replicate {A = ℕ} k 0 =
      drop-replicate (length text) n
      ∙ ap (λ m. replicate {A = ℕ} m 0)
          (let e : n - length text ≡ suc (suc k) = omega arith in e) in
    (
      text ++ 0 ∷ 0 ∷ replicate k 0,
      rw size (rw within (rw behind (ap some (set-past text (0 ∷ 0 ∷ replicate k 0) 1 0)))),
      unfold c_string in c_string-append text (0 ∷ 0 ∷ replicate k 0) plain ∙ append-nil text,
    )

stored_field :
    (go : Bytes → Ran TeamInfo) (failed : TeamInfo) (array text : Bytes) {filled : Bytes}
    → store_info array text ≡ some filled
    → store_field go failed array (some text) ≡ go filled
stored_field go failed array text {filled} e = ap (λ o. elim o [ none ↦ faults | some f ↦ go f ]) e

-- From a file that holds both fields, which can be read and is not empty, the two texts are read: the
-- arrays, which are empty before, hold them as C strings. Each text and its terminator fit with one
-- byte to spare.
pub fm_team_info-HasField :
    (base_dir : Bytes) (files : Files) (text team pin : Bytes)
    → fm_read base_dir files (codes "probe.team") ≡ returns (some text)
    → HasField (c_string text) (codes "team_name:") team
    → HasField (c_string text) (codes "pin_code:") pin
    → Lacks 0 team
    → Lacks 0 pin
    → length team + 1 < team_info_size
    → length pin + 1 < team_info_size
    → (team_name pin_code : Bytes) × (fm_team_info base_dir files
          (replicate team_info_size 0)
          (replicate team_info_size 0)
        ≡ returns (pos 0, team_name, pin_code))
      × (c_string team_name ≡ team)
      × (c_string pin_code ≡ pin)
unfolding fm_team_info
fm_team_info-HasField base_dir files text team pin content has_team has_pin team_plain pin_plain
      team_fits pin_fits =
    let array : Bytes = replicate team_info_size 0 in
    let (team_name, team_stored, team_read) =
      store_info-empty team_info_size team team_plain team_fits in
    let (pin_code, pin_stored, pin_read) = store_info-empty team_info_size pin pin_plain pin_fits in
    (
      team_name,
      pin_code,
      rw content (
          rw (info_field-HasField (c_string text) team b't' (codes "eam_name:") has_team) (
            stored_field _ (negsuc 0, array, array) array team team_stored
            ∙ rw (info_field-HasField (c_string text) pin b'p' (codes "in_code:") has_pin)
                (stored_field _ (negsuc 0, team_name, array) array pin pin_stored))),
      team_read,
      pin_read,
    )
