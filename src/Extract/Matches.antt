-- ===== src/Extract/Matches.antt =====
-- src/url-extract.c and src/p_regex.c: the array of URLs after the loop over the matches.
use freenote_probe.Base.{
  ℕ, ◌+◌, ◌-◌, ◌≤◌, ◌<◌, true, false, Option, none, some, List, [], ◌∷◌, if◌then◌else◌, ltb, ◌≡◌,
  length, take, drop, replicate, get_elem?, All,
}
use freenote_probe.CString.{Bytes, starts_with}
use freenote_probe.Ran.{Ran, returns}

-- An array of `n` elements, the first of which hold the URLs.
abbrev pub array : ℕ → List Bytes → List (Option Bytes)
array n [] = replicate n none
array n (u ∷ us) = some u ∷ array (n - 1) us

abbrev pub text_of : Bytes → ℕ × ℕ → Bytes
text_of s (so, eo) = take (eo - so) (drop so s)

-- No URL is a copy or a front part of an earlier one.
abbrev pub Fresh : List Bytes → Type 0
Fresh [] = Unit
Fresh (u ∷ us) = All (λ w. starts_with u w ≡ false) us × Fresh us

-- Some URL of the list is the text or begins with it.
abbrev pub Covered : Bytes → List Bytes → Type 0
Covered t us = (i : ℕ) × (u : Bytes) × (get_elem? us i ≡ some u) × (starts_with u t ≡ true)

added : Bytes → List Bytes → List Bytes
added t [] = t ∷ []
added t (u ∷ us) = let rest = added t us in if starts_with u t then u ∷ us else u ∷ rest

-- The number of matches that the loop counts.
abbrev pub counted : List (ℕ × ℕ) → ℕ
counted [] = 0
counted (m ∷ ms) = (if ltb 0 m.0 then 1 else 0) + counted ms

-- A match that begins inside the text, and does not end before its begin.
abbrev pub IsInside : Bytes → ℕ × ℕ → Type 0
IsInside s m = (m.0 ≤ m.1) × (m.0 ≤ length s)

-- What the loop makes of an array with the URLs `us`.
abbrev Added : Bytes → ℕ → List Bytes → List (ℕ × ℕ) → Ran (ℕ × List (Option Bytes)) → Type 0
Added s n us ms run =
    (after : List Bytes) × (run ≡ returns (counted ms, array n after))
    × Fresh after
    × (length after ≤ length us + counted ms)
    × ((i : ℕ) (u : Bytes) → get_elem? us i ≡ some u → get_elem? after i ≡ some u)
    × All (λ m. 0 < m.0 → Covered (text_of s m) after) ms
